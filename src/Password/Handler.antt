-- ===== src/Password/Handler.antt =====
-- auth/password/handler.go: what the handlers are made of, and how errors become responses. The
-- three headers that forbid caching stand on every response with a body and are left out.
pub mod Sessions
pub mod Accounts
pub mod LoginErrors
pub mod Login
pub mod Recovery
pub mod Tests
use gotchi.Base.{ℕ, Bool, Option, none, some, Text, String, is_empty, if◌then◌else◌}
use gotchi.Errors.{
  Sentinel, invalid_credentials, account_locked, password_policy_violation,
  email_already_registered, email_not_verified, token_invalid, user_not_found, Error,
  as_password_error,
}
use gotchi.Web.Http.{Response, json, error_json}
use gotchi.Web.Address.{split_host_port}
use gotchi.Password.Config
use gotchi.Password.Config.{PasswordConfig}
use gotchi.Password.Store.{PasswordIdentityStore}

pub record PasswordHandler : Type 0 where
  -- with its defaults
  pub cfg : PasswordConfig
  pub store : PasswordIdentityStore

unfoldable pub new_password_handler : PasswordConfig → PasswordIdentityStore → PasswordHandler
new_password_handler cfg store = record { cfg = Config.with_defaults cfg; store = store }

pub record LoginRequest : Type 0 where
  pub email : Text
  pub password : Text

pub record ChangePasswordRequest : Type 0 where
  pub current_password : Text
  pub new_password : Text

pub record ResetPasswordRequest : Type 0 where
  pub token : Text
  pub new_password : Text

unfoldable pub write_error : ℕ → String → String → Response
write_error status code message = json status (error_json code message)

unfoldable pub error_string : Sentinel → String
error_string invalid_credentials = "invalid_credentials"
error_string account_locked = "account_locked"
error_string password_policy_violation = "password_policy_violation"
error_string email_already_registered = "email_already_registered"
error_string email_not_verified = "email_not_verified"
error_string token_invalid = "invalid_token"
error_string user_not_found = "user_not_found"

unfoldable pub answer_for : Option (Sentinel × ℕ) → Response
unfolding write_error error_string
answer_for none = write_error 500 "internal_error" "an unexpected error occurred"
answer_for (some (s, status)) = write_error status (error_string s) (error_string s)

unfoldable pub handle_password_error : Error → Response
unfolding as_password_error answer_for
handle_password_error e = answer_for (as_password_error e)

abbrev pub not_authenticated : Error → Response
not_authenticated e = json 401 (error_json "unauthorized" "not authenticated")

abbrev pub bad_request : Error → Response
bad_request e = json 400 (error_json "invalid_request" "failed to parse request body")

abbrev host_or : Text → Option Text → Text
host_or addr none = addr
host_or addr (some host) = host

-- the header X-Real-IP, else the host of r.RemoteAddr, else all of it
unfoldable pub ip_address : Text → Text → Text
unfolding split_host_port
ip_address real_ip remote_addr =
    if is_empty real_ip then host_or remote_addr (split_host_port remote_addr) else real_ip
