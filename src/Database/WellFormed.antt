-- ===== src/Database/WellFormed.antt =====
-- What the tables promise: the keys of migrations/auth and migrations/password, stated of the rows.
pub mod Users
pub mod Passwords
pub mod Connections
use gotchi.Base.{ℕ, ◌≡◌, ◌==◌, ◌&&◌, Bool, true, false, not, is_empty, same, List, any, All, Once}
use gotchi.Database.{
  User, Tenant, TenantMembership, PasswordCredential, LoginAttempt, AuthToken, Database,
}
use gotchi.Database.Users.{has_tenant_id, has_user_id, is_membership}
use gotchi.Database.Passwords.{is_credential_of}

abbrev pub Known : List User → ℕ → Type 0
Known users id = any (has_user_id id) users ≡ true

abbrev pub KnownTenant : List Tenant → ℕ → Type 0
KnownTenant tenants id = any (has_tenant_id id) tenants ≡ true

-- the keys of `users`, spelled apart from the test that an INSERT makes
abbrev pub same_id : User → User → Bool
same_id u v = u.id == v.id

abbrev pub same_identifier : User → User → Bool
same_identifier u v = same u.issuer v.issuer && same u.identifier_subject v.identifier_subject

-- an empty address is NULL, which is no key
abbrev pub same_address : User → User → Bool
same_address u v = not (is_empty u.email) && (same u.email v.email && same u.issuer v.issuer)

abbrev pub same_tenant : Tenant → Tenant → Bool
same_tenant s t = has_tenant_id s.tenant_id t

abbrev pub same_membership : TenantMembership → TenantMembership → Bool
same_membership m n = is_membership m.user_id m.tenant_id n

abbrev pub same_owner : PasswordCredential → PasswordCredential → Bool
same_owner c d = is_credential_of c.user_id d

-- No two users share an id, an identifier, or an address of the same issuer that is not empty; no two tenants an id; a
-- user is a member of a tenant once and has one credential; and every row belongs to a user, and a
-- membership to a tenant, that exists.
pub record IsWellFormed (d : Database) : Type 0 where
  pub users : Once same_id d.users
  pub identifiers : Once same_identifier d.users
  pub addresses : Once same_address d.users
  pub tenants : Once same_tenant d.tenants
  pub memberships : Once same_membership d.memberships
  pub credentials : Once same_owner d.credentials
  pub members : All (λ m. Known d.users m.user_id) d.memberships
  pub member_tenants : All (λ m. KnownTenant d.tenants m.tenant_id) d.memberships
  pub credential_owners : All (λ c. Known d.users c.user_id) d.credentials
  pub attempt_owners : All (λ a. Known d.users a.user_id) d.attempts
  pub token_owners : All (λ t. Known d.users t.user_id) d.tokens
