-- ===== src/Identity/Members.antt =====
-- Whom ResolveOrProvisionUser of auth/postgres_store.go lets in.
use mathlib.Core.Path.{subst}
use gotchi.Base.{
  ◌≡◌, ◌≢◌, sym, Bool, true, false, Bool-cases, inl, inr, List, [], ◌∷◌, String, ap, not,
  if◌then◌else◌,
}
use gotchi.Errors.{Error, Result, ok, err}
use gotchi.Database.{Database, User}
use gotchi.Database.Users
use gotchi.Database.Users.{Membership, join_tenants}
use gotchi.Database.Connection.{Connection, M, raise, or_wrap, query, ◌>>=◌}
use gotchi.Database.Connection.Runs.{
  bind_returns, bind_step, or_wrap_returns, query_returns, query_tables,
}
use gotchi.Identity.Types.{Identity, UserRef}
use gotchi.Identity.Store.{
  PostgresIdentityStore, NewIds, list_memberships, some_membership, provision, resolve,
  resolve_or_provision_user, is_no_rows,
}

-- the user has a membership of a tenant that is in the tables
abbrev pub IsMember : Database → UserRef → Type 0
IsMember d ref = join_tenants ref.user_id d.tenants d.memberships ≢ []

-- wherever it returns a user, the user is a member
record Admits (m : M UserRef) : Type 0 where
  at : (c : Connection) (ref : UserRef) → (m c).0 ≡ ok ref → IsMember (m c).1.tables ref

-- what was done before counts for nothing
Admits-bind {ℓ} :
    {A : Type ℓ} (m : M A) (f : A → M UserRef) → ((a : A) → Admits (f a)) → Admits (m >>= f)
Admits-bind m f k = record {
  at = λ c ref h.
      let (a, first, rest) = bind_returns m f c ref h in
      subst (λ r. IsMember r.1.tables ref) (sym (bind_step m f c a first))
        ((k a).at (m c).1 ref rest);
}

Admits-raise : (e : Error) → Admits (raise e)
unfolding raise
Admits-raise e = record { at = λ c ref h. absurd (cc) }

some_membership-IsMember :
    (e : Error) (u : User) (ms : List Membership) (c : Connection) (ref : UserRef)
    → join_tenants u.id c.tables.tenants c.tables.memberships ≡ ms
    → (some_membership e u ms c).0 ≡ ok ref
    → IsMember (some_membership e u ms c).1.tables ref
unfolding some_membership ◌>>=◌
some_membership-IsMember e u [] c ref found h none = cc
some_membership-IsMember e u (m ∷ ms) c ref found h none =
    let same_user : u.id ≡ ref.user_id = cc in
    let same_rows = ap (λ id. join_tenants id c.tables.tenants c.tables.memberships) same_user in cc

-- The check at the end of both ways.
Admits-checked :
    (e : Error) (u : User) (text : String)
    → Admits (or_wrap text (list_memberships u.id) >>= some_membership e u)
unfolding list_memberships Users.list_memberships
Admits-checked e u text = record {
  at = λ c ref h.
      let read = query (Users.list_memberships u.id) in
      let m = or_wrap text (list_memberships u.id) in
      let (ms, got, rest) = bind_returns m (some_membership e u) c ref h in
      let rows = query_returns (Users.list_memberships u.id) c ms (
        or_wrap_returns "failed to list memberships" read c ms
          (or_wrap_returns text (list_memberships u.id) c ms got)) in
      let same_tables : (m c).1.tables ≡ c.tables =
        unfold or_wrap in query_tables (Users.list_memberships u.id) c in
      subst (λ r. IsMember r.1.tables ref) (sym (bind_step m (some_membership e u) c ms got))
        (some_membership-IsMember e u ms (m c).1 ref (rw same_tables (let x = rows in cc)) rest);
}

Admits-provision :
    (s : PostgresIdentityStore) (new : NewIds) (i : Identity) → Admits (provision s new i)
unfolding provision
Admits-provision s new i = Admits-bind _ _ (λ tenant.
    Admits-bind _ _
      (λ now. Admits-bind _ _ (λ created. Admits-bind _ _ (λ m. Admits-checked _ created _))))

Admits-resolve :
    (s : PostgresIdentityStore) (new : NewIds) (i : Identity) (r : Result User)
    → Admits (resolve s new i r)
unfolding resolve
Admits-resolve s new i (ok user) = Admits-checked _ user _
Admits-resolve s new i (err e) = elim (Bool-cases (is_no_rows e)) [
  | inl absent ↦ rw absent (Admits-provision s new i)
  | inr other ↦ rw other (Admits-raise _)
]

Admits-if : (b : Bool) (m n : M UserRef) → Admits m → Admits n → Admits (if b then m else n)
Admits-if true m n h k = h
Admits-if false m n h k = k

-- Whatever the tables, the identity and the statements that fail: where ResolveOrProvisionUser returns
-- a user, this user has a membership of a tenant in the tables behind the call.
pub resolve_or_provision_user-IsMember :
    (s : PostgresIdentityStore) (new : NewIds) (i : Identity) (c : Connection) (ref : UserRef)
    → (resolve_or_provision_user s new i c).0 ≡ ok ref
    → IsMember (resolve_or_provision_user s new i c).1.tables ref
unfolding resolve_or_provision_user
resolve_or_provision_user-IsMember s new i c ref h =
    (Admits-if (not s.has_pool) _ _ (Admits-raise _)
        (Admits-bind _ _ (λ found. Admits-resolve s new i found))).at
      c ref h
