-- ===== src/Database/WellFormed/Users.antt =====
-- The statements of internal/db/auth.sql.go keep the promises of the tables.
use gotchi.Base.{
  ℕ, ◌≡◌, refl, Bool, true, false, Text, same, Bool-cases, inl, inr, List, [], ◌∷◌, ◌++◌, any,
  update_by, All-imp, All-snoc, All-update_by, any-snoc, Once-snoc, Once-update_by, arith,
}
use gotchi.Errors.{Result, ok, err}
use gotchi.Database.{Role, User, Tenant, TenantMembership, Database}
use gotchi.Database.Users.{
  conflicts, has_tenant_id, has_user_id, is_membership, insert_user, insert_tenant,
  upsert_membership,
}
use gotchi.Database.Connection.{unchanged}
use gotchi.Database.WellFormed.{
  Known, KnownTenant, same_id, same_identifier, same_address, same_tenant, same_membership,
  IsWellFormed,
}

-- The tables behind a statement are well formed wherever it succeeds.
abbrev pub Fine {ℓ} : {A : Type ℓ} → Result (A × Database) → Type 0
Fine (ok (a, d)) = IsWellFormed d
Fine (err e) = Unit {0}

pub record Sound {ℓ} {A : Type ℓ} (q : Database → Result (A × Database)) : Type ℓ where
  pub at : (d : Database) → IsWellFormed d → Fine (q d)

Fine-unchanged {ℓ} :
    {A : Type ℓ} (d : Database) (r : Result A) → IsWellFormed d → Fine (unchanged d r)
Fine-unchanged d (ok b) w = w
Fine-unchanged d (err f) w = tt

-- A statement that only reads.
pub Sound-read {ℓ} : {A : Type ℓ} (q : Database → Result A) → Sound (λ d. unchanged d (q d))
Sound-read q = record { at = λ d w. Fine-unchanged d (q d) w }

-- A user who is added takes nobody away.
Known-cons : (new : User) (users : List User) (id : ℕ) → Known users id → Known (new ∷ users) id
Known-cons new users id h = ground arith

same_comm : (s t : Text) → same s t ≡ same t s
unfolding same
same_comm [] [] = refl
same_comm [] (d ∷ t) = refl
same_comm (c ∷ s) [] = refl
same_comm (c ∷ s) (d ∷ t) = ground (arith, same_comm s t)

-- each key by itself is in the test of the INSERT
module _ (new : User) where
  clash_id : (u : User) → same_id new u ≡ true → conflicts new u ≡ true
  clash_id u h = ground arith

  clash_identifier : (u : User) → same_identifier new u ≡ true → conflicts new u ≡ true
  clash_identifier u h =
      let i = same_comm new.issuer u.issuer in
      let j = same_comm new.identifier_subject u.identifier_subject in ground arith

  clash_address : (u : User) → same_address new u ≡ true → conflicts new u ≡ true
  clash_address u h =
      let i = same_comm new.issuer u.issuer in let j = same_comm new.email u.email in ground arith

  unclashing :
      (key : User → Bool)
      → ((u : User) → key u ≡ true → conflicts new u ≡ true)
      → (users : List User) → any (conflicts new) users ≡ false
      → any key users ≡ false
  unclashing key clash [] h = refl
  unclashing key clash (u ∷ users) h =
      let c = clash u in let rest = unclashing key clash users in ground arith

insert-IsWellFormed :
    (new : User) (d : Database)
    → IsWellFormed d
    → any (conflicts new) d.users ≡ false
    → IsWellFormed (record d { users = new ∷ d.users })
insert-IsWellFormed new d w free =
    let grow = Known-cons new d.users in
    record {
      users = (unclashing new (same_id new) (clash_id new) d.users free, w.users);
      identifiers =
          (unclashing new (same_identifier new) (clash_identifier new) d.users free, w.identifiers);
      addresses = (unclashing new (same_address new) (clash_address new) d.users free, w.addresses);
      tenants = w.tenants;
      memberships = w.memberships;
      credentials = w.credentials;
      members = All-imp _ _ d.memberships (λ m. grow m.user_id) w.members;
      member_tenants = w.member_tenants;
      credential_owners = All-imp _ _ d.credentials (λ c. grow c.user_id) w.credential_owners;
      attempt_owners = All-imp _ _ d.attempts (λ a. grow a.user_id) w.attempt_owners;
      token_owners = All-imp _ _ d.tokens (λ t. grow t.user_id) w.token_owners;
    }

pub insert_user-Sound : (new : User) → Sound (insert_user new)
unfolding insert_user
insert_user-Sound new = record {
  at = λ d w. elim (Bool-cases (any (conflicts new) d.users)) [
    | inl taken ↦ rw taken tt
    | inr free ↦ rw free (insert-IsWellFormed new d w free)
  ];
}

KnownTenant-snoc :
    (tenants : List Tenant) (t : Tenant) (id : ℕ)
    → KnownTenant tenants id
    → KnownTenant (tenants ++ (t ∷ [])) id
KnownTenant-snoc tenants t id h = let e = any-snoc (has_tenant_id id) tenants t in ground arith

same_tenant_comm : (s t : Tenant) → same_tenant s t ≡ same_tenant t s
same_tenant_comm s t = ground arith

insert_tenant-IsWellFormed :
    (t : Tenant) (d : Database)
    → IsWellFormed d
    → any (has_tenant_id t.tenant_id) d.tenants ≡ false
    → IsWellFormed (record d { tenants = d.tenants ++ t ∷ [] })
insert_tenant-IsWellFormed t d w free = record {
  users = w.users;
  identifiers = w.identifiers;
  addresses = w.addresses;
  tenants = Once-snoc same_tenant d.tenants t (λ s. same_tenant_comm s t) free w.tenants;
  memberships = w.memberships;
  credentials = w.credentials;
  members = w.members;
  member_tenants =
      All-imp _ _ d.memberships (λ m. KnownTenant-snoc d.tenants t m.tenant_id) w.member_tenants;
  credential_owners = w.credential_owners;
  attempt_owners = w.attempt_owners;
  token_owners = w.token_owners;
}

pub insert_tenant-Sound : (t : Tenant) → Sound (insert_tenant t)
unfolding insert_tenant
insert_tenant-Sound t = record {
  at = λ d w. elim (Bool-cases (any (has_tenant_id t.tenant_id) d.tenants)) [
    | inl taken ↦ rw taken tt
    | inr free ↦ rw free (insert_tenant-IsWellFormed t d w free)
  ];
}

same_membership_comm : (m n : TenantMembership) → same_membership m n ≡ same_membership n m
same_membership_comm m n = ground arith

-- The conflict clause changes no key.
grant-IsWellFormed :
    (q : TenantMembership → Bool) (role : Role) (d : Database)
    → IsWellFormed d
    → IsWellFormed
        (record d { memberships = update_by q (λ old. record old { role = role }) d.memberships })
grant-IsWellFormed q role d w = record {
  users = w.users;
  identifiers = w.identifiers;
  addresses = w.addresses;
  tenants = w.tenants;
  memberships =
      Once-update_by same_membership q _ d.memberships (λ x y e. refl) (λ x y e. refl)
        w.memberships;
  credentials = w.credentials;
  members = All-update_by _ q _ d.memberships (λ m h. h) w.members;
  member_tenants = All-update_by _ q _ d.memberships (λ m h. h) w.member_tenants;
  credential_owners = w.credential_owners;
  attempt_owners = w.attempt_owners;
  token_owners = w.token_owners;
}

join-IsWellFormed :
    (m : TenantMembership) (d : Database)
    → IsWellFormed d
    → Known d.users m.user_id
    → KnownTenant d.tenants m.tenant_id
    → any (is_membership m.user_id m.tenant_id) d.memberships ≡ false
    → IsWellFormed (record d { memberships = d.memberships ++ m ∷ [] })
join-IsWellFormed m d w user tenant new = record {
  users = w.users;
  identifiers = w.identifiers;
  addresses = w.addresses;
  tenants = w.tenants;
  memberships =
      Once-snoc same_membership d.memberships m (λ n. same_membership_comm n m) new w.memberships;
  credentials = w.credentials;
  members = All-snoc _ d.memberships m w.members user;
  member_tenants = All-snoc _ d.memberships m w.member_tenants tenant;
  credential_owners = w.credential_owners;
  attempt_owners = w.attempt_owners;
  token_owners = w.token_owners;
}

pub upsert_membership-Sound : (m : TenantMembership) → Sound (upsert_membership m)
unfolding upsert_membership
upsert_membership-Sound m = record {
  at = λ d w. elim (Bool-cases (any (has_user_id m.user_id) d.users)) [
    | inr stranger ↦ rw stranger tt
    | inl user ↦ elim (Bool-cases (any (has_tenant_id m.tenant_id) d.tenants)) [
      | inr nowhere ↦ rw (user, nowhere) tt
      | inl tenant ↦ elim (Bool-cases (any (is_membership m.user_id m.tenant_id) d.memberships)) [
        | inl old ↦
            rw (user, tenant, old)
              (grant-IsWellFormed (is_membership m.user_id m.tenant_id) m.role d w)
        | inr new ↦ rw (user, tenant, new) (join-IsWellFormed m d w user tenant new)
      ]
    ]
  ];
}

pub ruleset user_statements =
    (Sound-read, insert_user-Sound, insert_tenant-Sound, upsert_membership-Sound)
