-- ===== src/Web/Http.antt =====
-- Requests and responses. A response holds what a client can observe of it.
use gotchi.Base.{ℕ, ℤ, Bool, Option, none, List, Text, String}
use gotchi.Database.{Role}

pub record Cookie : Type 0 where
  pub name : Text
  pub value : Text
  pub max_age : ℤ
  pub secure : Bool
  pub http_only : Bool

pub record TenantResponse : Type 0 where
  pub tenant_id : Text
  pub name : Text
  pub role : Role
  pub is_active : Bool

pub data Body : Type 0 where
  no_body : Body
  plain_text : String → Body
  -- the JSON of `tenant_selection_required`, with `tenant_count` where it is given
  tenant_selection_required : Option ℕ → Body
  tenants : List TenantResponse → Body
  -- {"error": …, "message": …}
  error_json : String → String → Body
  registered : Text → Text → Bool → Text → Body
  logged_in : Text → ℕ → Bool → Body
  message : String → Text → Body

pub record Response : Type 0 where
  pub status : ℕ
  pub location : Option Text
  pub body : Body

-- http.Error
abbrev pub http_error : String → ℕ → Response
http_error text status = record { status = status; location = none; body = plain_text text }

-- http.Redirect
abbrev pub redirect : Text → ℕ → Response
redirect url status = record { status = status; location = Option.some url; body = no_body }

abbrev pub json : ℕ → Body → Response
json status body = record { status = status; location = none; body = body }
