-- ===== src/Database.antt =====
-- The rows of the tables of migrations/auth and migrations/password (internal/db/models.go).
-- A table is the list of its rows. `tenants` and `tenant_memberships` are kept oldest first, which
-- is the order of `created_at` by which queries sort them; no query observes the order of another.
-- `created_at` and `updated_at` are read by no other code and left out, as is the id of an attempt
-- and of a token. An UUID is a number, 0 the nil UUID.
pub mod Users
pub mod Passwords
pub mod Connection
pub mod WellFormed
use gotchi.Base.{ℕ, ℤ, Bool, Option, List, Text, [], ◌∷◌}

pub data Role : Type 0 where
  owner admin member : Role

pub data TokenType : Type 0 where
  password_reset email_verification : TokenType

pub record User : Type 0 where
  pub id : ℕ
  pub email : Text
  pub email_verified : Bool
  pub username : Option Text
  pub name : Option Text
  pub issuer : Text
  pub identifier_subject : Text
  pub last_login_at : Option ℤ

pub record Tenant : Type 0 where
  pub tenant_id : ℕ
  pub name : Text

pub record TenantMembership : Type 0 where
  pub user_id : ℕ
  pub tenant_id : ℕ
  pub role : Role

pub record PasswordCredential : Type 0 where
  pub user_id : ℕ
  pub password_hash : Text
  pub hash_algorithm : Text

pub record LoginAttempt : Type 0 where
  pub user_id : ℕ
  pub attempted_at : ℤ
  pub ip_address : Option Text
  pub success : Bool

pub record AuthToken : Type 0 where
  pub user_id : ℕ
  pub token_hash : Text
  pub token_type : TokenType
  pub expires_at : ℤ
  pub consumed_at : Option ℤ

pub record Database : Type 0 where
  pub users : List User
  pub tenants : List Tenant
  pub memberships : List TenantMembership
  pub credentials : List PasswordCredential
  pub attempts : List LoginAttempt
  pub tokens : List AuthToken

abbrev pub empty : Database
empty = record {
  users = [];
  tenants = [];
  memberships = [];
  credentials = [];
  attempts = [];
  tokens = [];
}

abbrev pub is_type : TokenType → TokenType → Bool
is_type password_reset password_reset = Bool.true
is_type email_verification email_verification = Bool.true
is_type _ _ = Bool.false
