-- ===== src/Auth/Config.antt =====
-- auth/config.go.
use gotchi.Base.{Bool, true, Option, none, some, Text, is_empty, if◌then◌else◌}
use gotchi.Auth.Default

pub record Config : Type 0 where
  pub enabled : Bool
  pub issuer_url : Text
  pub client_id : Text
  pub client_secret : Text
  pub redirect_url : Text
  pub login_path : Text
  pub post_login_redirect : Text
  pub tenant_picker_path : Text
  pub session_key : Text
  pub authorize_path : Text
  pub callback_path : Text
  pub tenants_path : Text
  pub tenant_select_path : Text
  pub logout_path : Text
  pub post_logout_redirect : Text
  pub state_cookie_name : Text
  pub cookie_secure : Option Bool

-- if s == "" { s = d }
abbrev pub or_default : Text → Text → Text
or_default s d = if is_empty s then d else s

-- a nil flag counts as true
abbrev pub secure_flag : Option Bool → Bool
secure_flag none = true
secure_flag (some b) = b

abbrev pub with_defaults : Config → Config
with_defaults c = record c {
  login_path = or_default c.login_path Default.login_path;
  post_login_redirect = or_default c.post_login_redirect Default.post_login_redirect;
  tenant_picker_path = or_default c.tenant_picker_path Default.tenant_picker_path;
  session_key = or_default c.session_key Default.session_key;
  authorize_path = or_default c.authorize_path Default.authorize_path;
  callback_path = or_default c.callback_path Default.callback_path;
  tenants_path = or_default c.tenants_path Default.tenants_path;
  tenant_select_path = or_default c.tenant_select_path Default.tenant_select_path;
  logout_path = or_default c.logout_path Default.logout_path;
  post_logout_redirect = or_default c.post_logout_redirect Default.post_logout_redirect;
  state_cookie_name = or_default c.state_cookie_name Default.state_cookie_name;
  cookie_secure = some (secure_flag c.cookie_secure);
}
