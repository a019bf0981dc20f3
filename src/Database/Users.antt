-- ===== src/Database/Users.antt =====
-- The queries of internal/db/auth.sql.go, with the constraints of migrations/auth that an INSERT
-- can violate. The code of a PgError is its SQLSTATE.
use gotchi.Base.{
  ℕ, ◌==◌, ◌&&◌, ◌||◌, not, Bool, Option, none, some, List, [], ◌∷◌, ◌++◌, Text, same, is_empty,
  any, find?, update_by, if◌then◌else◌,
}
use gotchi.Errors.{Result, ok, err, no_rows, pg_error}
use gotchi.Database.{Role, User, Tenant, TenantMembership, Database}

-- a `:one` query
abbrev pub one {ℓ} : {A : Type ℓ} → Option A → Result A
one none = err no_rows
one (some a) = ok a

abbrev pub has_identifier : Text → Text → User → Bool
has_identifier issuer subject u = same u.issuer issuer && same u.identifier_subject subject

unfoldable pub get_user_by_identifier : Text → Text → Database → Result User
get_user_by_identifier issuer subject d = one (find? (has_identifier issuer subject) d.users)

-- PRIMARY KEY, unique_issuer_subject, and the partial index users_email_issuer_uniq
abbrev pub conflicts : User → User → Bool
conflicts new u =
    u.id == new.id
    || has_identifier new.issuer new.identifier_subject u
    || (not (is_empty new.email) && (same u.email new.email && same u.issuer new.issuer))

unfoldable pub insert_user : User → Database → Result (User × Database)
insert_user new d =
    if any (conflicts new) d.users
    then err (pg_error "23505")
    else ok (new, record d { users = new ∷ d.users })

pub record Membership : Type 0 where
  pub tenant_id : ℕ
  pub tenant_name : Text
  pub role : Role

abbrev pub has_tenant_id : ℕ → Tenant → Bool
has_tenant_id id t = t.tenant_id == id

abbrev joined : Option Tenant → TenantMembership → List Membership → List Membership
joined none m rest = rest
joined (some t) m rest =
    record { tenant_id = m.tenant_id; tenant_name = t.name; role = m.role } ∷ rest

-- the JOIN with `tenants`; the rows are sorted by `created_at` as they stand
unfoldable pub join_tenants : ℕ → List Tenant → List TenantMembership → List Membership
join_tenants user_id tenants [] = []
join_tenants user_id tenants (m ∷ ms) =
    let rest = join_tenants user_id tenants ms in
    if m.user_id == user_id then joined (find? (has_tenant_id m.tenant_id) tenants) m rest else rest

unfoldable pub list_memberships : ℕ → Database → Result (List Membership)
list_memberships user_id d = ok (join_tenants user_id d.tenants d.memberships)

unfoldable pub get_tenant_by_id : ℕ → Database → Result Tenant
get_tenant_by_id id d = one (find? (has_tenant_id id) d.tenants)

abbrev first : List Tenant → Result ℕ
first [] = err no_rows
first (t ∷ _) = ok t.tenant_id

unfoldable pub get_first_tenant : Database → Result ℕ
get_first_tenant d = first d.tenants

unfoldable pub insert_tenant : Tenant → Database → Result (Unit {0} × Database)
insert_tenant t d =
    if any (has_tenant_id t.tenant_id) d.tenants
    then err (pg_error "23505")
    else ok (tt, record d { tenants = d.tenants ++ t ∷ [] })

abbrev pub has_user_id : ℕ → User → Bool
has_user_id id u = u.id == id

abbrev pub is_membership : ℕ → ℕ → TenantMembership → Bool
is_membership user_id tenant_id m = m.user_id == user_id && m.tenant_id == tenant_id

-- ON CONFLICT DO UPDATE, behind the two foreign keys
unfoldable pub upsert_membership :
    TenantMembership → Database → Result (TenantMembership × Database)
upsert_membership m d =
    if not (any (has_user_id m.user_id) d.users && any (has_tenant_id m.tenant_id) d.tenants)
    then err (pg_error "23503")
    else if any (is_membership m.user_id m.tenant_id) d.memberships
    then ok (
      m,
      record d {
        memberships =
            update_by (is_membership m.user_id m.tenant_id) (λ old. record old { role = m.role })
              d.memberships;
      },
    )
    else ok (m, record d { memberships = d.memberships ++ m ∷ [] })

unfoldable pub get_membership_by_user_and_tenant : ℕ → ℕ → Database → Result TenantMembership
get_membership_by_user_and_tenant user_id tenant_id d =
    one (find? (is_membership user_id tenant_id) d.memberships)
