-- ===== src/Auth/Default.antt =====
-- The constants of auth/types.go.
use gotchi.Base.{ℤ, pos, Text, codes}

abbrev pub session_key : Text
session_key = codes "auth"

abbrev pub login_path : Text
login_path = codes "/auth/login"

abbrev pub tenant_picker_path : Text
tenant_picker_path = codes "/auth/tenants"

abbrev pub post_login_redirect : Text
post_login_redirect = codes "/ui/profile"

abbrev pub authorize_path : Text
authorize_path = codes "/oidc/authorize"

abbrev pub callback_path : Text
callback_path = codes "/oidc/callback"

abbrev pub tenants_path : Text
tenants_path = codes "/tenants"

abbrev pub tenant_select_path : Text
tenant_select_path = codes "/tenant/select"

abbrev pub logout_path : Text
logout_path = codes "/oidc/logout"

abbrev pub post_logout_redirect : Text
post_logout_redirect = codes "/"

abbrev pub state_cookie_name : Text
state_cookie_name = codes "oidc_state"

abbrev pub cookie_max_age_second : ℤ
cookie_max_age_second = pos 3600
