-- ===== src/Identity/Stranded.antt =====
-- `ResolveOrProvisionUser` of auth/postgres_store.go on the pool, as the callback of the OIDC login
-- calls it: each statement is committed by itself.
use gotchi.Base.{
  ℤ, ◌≡◌, ◌≢◌, refl, Bool, true, false, none, some, List, [], ◌∷◌, any, find?, same_self,
}
use gotchi.Errors.{Result, ok, err, plain, wrap}
use gotchi.Database.{User, Tenant, Database}
use gotchi.Database.Users
use gotchi.Database.Users.{one, conflicts, has_identifier, join_tenants}
use gotchi.Database.Connection.{Connection, ◌>>=◌, exec}
use gotchi.Identity.Types.{Identity, UserRef}
use gotchi.Identity.Store.{
  PostgresIdentityStore, NewIds, or_v4, user_of, resolve_or_provision_user, resolve, provision,
  list_memberships, some_membership, first_tenant_or_create, first_or_create, create_membership,
}

-- on the pool, outside any transaction, with these faults ahead
abbrev pub pooled : Database → ℤ → List Bool → Connection
pooled d now faults = record {
  tables = d;
  snapshot = none;
  aborted = false;
  faults = faults;
  clock = now;
  hashings = 0;
  mails = [];
}

-- a login that gives no user and leaves the tables as they were
abbrev pub IsRefused : Database → Result UserRef × Connection → Type 0
IsRefused e r = ((ref : UserRef) → r.0 ≢ ok ref) × (r.1.tables ≡ e)

module _ (s : PostgresIdentityStore) (i : Identity) (e : Database) (u : User)
    (pool : s.has_pool ≡ true) (found : find? (has_identifier i.issuer i.subject) e.users ≡ some u)
    (lonely : join_tenants u.id e.tenants e.memberships ≡ []) where
  lonely_login :
      (again : NewIds) (later : ℤ) (faults : List Bool)
      → IsRefused e (resolve_or_provision_user s again i (pooled e later faults))
  unfolding resolve_or_provision_user resolve list_memberships some_membership ◌>>=◌ exec
      Users.get_user_by_identifier Users.list_memberships
  lonely_login again later [] = rw (pool, found, lonely) ((λ ref h. cc), refl)
  lonely_login again later (true ∷ rest) = rw (pool) ((λ ref h. cc), refl)
  lonely_login again later (false ∷ []) = rw (pool, found, lonely) ((λ ref h. cc), refl)
  lonely_login again later (false ∷ false ∷ rest) = rw (pool, found, lonely) ((λ ref h. cc), refl)
  lonely_login again later (false ∷ true ∷ rest) = rw (pool, found) ((λ ref h. cc), refl)

module _ (s : PostgresIdentityStore) (new : NewIds) (i : Identity) (d : Database) (now : ℤ)
    (faults : List Bool) (pool : s.has_pool ≡ true)
    (unknown : find? (has_identifier i.issuer i.subject) d.users ≡ none)
    (free : any (conflicts (user_of new i now)) d.users ≡ false)
    (alone : join_tenants (or_v4 new.user_v7 new.user_v4) d.tenants d.memberships ≡ []) where
  abbrev stranded : Database
  stranded = record d { users = user_of new i now ∷ d.users }

  half_done :
      (t : Tenant) (ts : List Tenant)
      → d.tenants ≡ t ∷ ts
      → resolve_or_provision_user s new i (pooled d now (false ∷ false ∷ false ∷ true ∷ faults)) ≡ (
        err (
            wrap "failed to create membership"
              (wrap "failed to upsert membership" (plain "statement failed"))),
        pooled stranded now faults,
      )
  unfolding resolve_or_provision_user resolve provision first_tenant_or_create first_or_create
      create_membership ◌>>=◌ exec Users.get_user_by_identifier Users.get_first_tenant
      Users.insert_user
  half_done t ts some_tenant = rw (pool, unknown, some_tenant, free)

  -- Where a user is new, a tenant exists and no id or address is taken, and the statement that stores
  -- the membership fails outside a transaction, the user stays, with no membership. And in any tables
  -- in which the identifier leads to a user without a membership, as in these, a login on the pool is
  -- refused and leaves the tables as they are, whichever statements fail.
  pub failed_membership_strands_user :
      (t : Tenant) (ts : List Tenant) (e : Database) (u : User) (again : NewIds) (later : ℤ)
      (rest : List Bool)
      → d.tenants ≡ t ∷ ts
      → find? (has_identifier i.issuer i.subject) e.users ≡ some u
      → join_tenants u.id e.tenants e.memberships ≡ []
      → let left =
          (resolve_or_provision_user s new i
            (pooled d now (false ∷ false ∷ false ∷ true ∷ faults))).1.tables in
        (left ≡ record d { users = user_of new i now ∷ d.users })
        × (find? (has_identifier i.issuer i.subject) left.users ≡ some (user_of new i now))
        × (join_tenants (user_of new i now).id left.tenants left.memberships ≡ [])
        × IsRefused e (resolve_or_provision_user s again i (pooled e later rest))
  failed_membership_strands_user t ts e u again later rest some_tenant found lonely =
      rw (half_done t ts some_tenant) (
        refl,
        rw (same_self i.issuer, same_self i.subject) refl,
        alone,
        lonely_login s i e u pool found lonely again later rest,
      )
