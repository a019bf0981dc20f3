-- ===== src/Identity/Store.antt =====
-- auth/postgres_store.go.
use gotchi.Base.{
  ℕ, ℤ, Bool, true, false, Option, none, some, List, [], ◌∷◌, Text, is_empty, codes, if◌then◌else◌,
  not,
}
use gotchi.Errors.{Error, no_rows, pg_error, plain, wrap, password_error, Result, ok, err}
use gotchi.Database.{Role, member, User, TenantMembership}
use gotchi.Database.Users
use gotchi.Database.Users.{Membership}
use gotchi.Database.Connection.{
  M, pure, raise, attempt, or_wrap, ◌>>=◌, ◌>>◌, get_clock, exec, query,
}
use gotchi.Identity.Types.{Identity, UserRef, TenantDisplay}

pub record PostgresIdentityStore : Type 0 where
  pub has_pool : Bool
  pub default_tenant_name : Text

abbrev default_name : Text → Text
default_name name = if is_empty name then codes "Default" else name

unfoldable pub new_postgres_identity_store : Bool → Text → PostgresIdentityStore
new_postgres_identity_store has_pool name = record {
  has_pool = has_pool;
  default_tenant_name = default_name name;
}

-- What uuid.NewV7 returns (none on an error), and what uuid.New returns in its place.
pub record NewIds : Type 0 where
  pub user_v7 : Option ℕ
  pub user_v4 : ℕ
  pub tenant_v7 : Option ℕ
  pub tenant_v4 : ℕ

abbrev pub or_v4 : Option ℕ → ℕ → ℕ
or_v4 none v4 = v4
or_v4 (some v7) v4 = v7

abbrev pub is_no_rows : Error → Bool
is_no_rows no_rows = true
is_no_rows (pg_error c) = false
is_no_rows (plain s) = false
is_no_rows (wrap s e) = false
is_no_rows (password_error s n d) = false

-- pgtype.Text{String: s, Valid: s != ""}
abbrev pub nullable : Text → Option Text
nullable s = if is_empty s then none else some s

unfoldable pub list_memberships : ℕ → M (List Membership)
list_memberships user_id =
    or_wrap "failed to list memberships" (query (Users.list_memberships user_id))

unfoldable pub get_tenant_display : ℕ → M TenantDisplay
get_tenant_display id = do
  row ← or_wrap "failed to get tenant" (query (Users.get_tenant_by_id id))
  pure (record { tenant_id = row.tenant_id; name = row.name })

unfoldable pub create_tenant : PostgresIdentityStore → NewIds → M ℕ
create_tenant s new = do
  let id = or_v4 new.tenant_v7 new.tenant_v4
  or_wrap "failed to insert tenant"
      (exec (Users.insert_tenant (record { tenant_id = id; name = s.default_tenant_name })))
  pure id

unfoldable pub first_or_create : PostgresIdentityStore → NewIds → Result ℕ → M ℕ
first_or_create s new (ok id) = pure id
first_or_create s new (err e) =
    if is_no_rows e then create_tenant s new else raise (wrap "failed to query tenant" e)

unfoldable pub first_tenant_or_create : PostgresIdentityStore → NewIds → M ℕ
first_tenant_or_create s new = do
  first ← attempt (query Users.get_first_tenant)
  first_or_create s new first

abbrev pub named : TenantMembership → Result TenantDisplay → Membership
named row (ok display) = record {
  tenant_id = row.tenant_id;
  tenant_name = display.name;
  role = row.role;
}
named row (err e) = record { tenant_id = row.tenant_id; tenant_name = []; role = row.role }

unfoldable pub create_membership : ℕ → ℕ → Role → M Membership
create_membership user_id tenant_id role = do
  row ← or_wrap "failed to upsert membership" (
      exec (
        Users.upsert_membership (record { user_id = user_id; tenant_id = tenant_id; role = role })))
  display ← attempt (get_tenant_display row.tenant_id)
  pure (named row display)

abbrev pub ref_of : User → UserRef
ref_of u = record { user_id = u.id; issuer = u.issuer; subject = u.identifier_subject }

unfoldable pub some_membership : Error → User → List Membership → M UserRef
some_membership e u [] = raise e
some_membership e u (_ ∷ _) = pure (ref_of u)

abbrev pub username_of : Identity → Text
username_of i = if is_empty i.preferred_username then i.username else i.preferred_username

abbrev pub user_of : NewIds → Identity → ℤ → User
user_of new i now = record {
  id = or_v4 new.user_v7 new.user_v4;
  email = i.email;
  email_verified = i.email_verified;
  username = nullable (username_of i);
  name = nullable i.name;
  issuer = i.issuer;
  identifier_subject = i.subject;
  last_login_at = some now;
}

unfoldable pub provision : PostgresIdentityStore → NewIds → Identity → M UserRef
provision s new i = do
  tenant_id ← or_wrap "failed to get or create tenant" (first_tenant_or_create s new)
  now ← get_clock
  created ← or_wrap "failed to insert user" (exec (Users.insert_user (user_of new i now)))
  or_wrap "failed to create membership" (create_membership created.id tenant_id member)
  memberships ← or_wrap "failed to list memberships for created user" (list_memberships created.id)
  some_membership (plain "failed to verify membership creation") created memberships

unfoldable pub resolve : PostgresIdentityStore → NewIds → Identity → Result User → M UserRef
resolve s new i (ok user) = do
  memberships ← or_wrap "failed to list memberships" (list_memberships user.id)
  some_membership (plain "user has no tenant memberships (data integrity issue)") user memberships
resolve s new i (err e) =
    if is_no_rows e then provision s new i else raise (wrap "failed to query user" e)

unfoldable pub resolve_or_provision_user : PostgresIdentityStore → NewIds → Identity → M UserRef
resolve_or_provision_user s new i =
    if not s.has_pool then raise (plain "postgres pool is required") else do
      found ← attempt (query (Users.get_user_by_identifier i.issuer i.subject))
      resolve s new i found
