-- ===== src/Identity/Types.antt =====
-- The types of auth/types.go.
use gotchi.Base.{ℕ, Bool, Option, Text}

-- `RawClaims` is set and read by no code.
pub record Identity : Type 0 where
  pub issuer : Text
  pub subject : Text
  pub email : Text
  pub email_verified : Bool
  pub username : Text
  pub name : Text
  pub preferred_username : Text

pub record UserRef : Type 0 where
  pub user_id : ℕ
  pub issuer : Text
  pub subject : Text

pub record TenantDisplay : Type 0 where
  pub tenant_id : ℕ
  pub name : Text

pub record SessionClaims : Type 0 where
  pub authenticated : Bool
  pub user_id : ℕ
  pub issuer : Text
  pub subject : Text
  pub active_tenant_id : Option ℕ
