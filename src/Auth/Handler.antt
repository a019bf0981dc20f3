-- ===== src/Auth/Handler.antt =====
-- auth/handler.go, over the interface IdentityStore of auth/types.go and the parameters behind it.
pub mod Login
pub mod Tenants
use gotchi.Base.{
  ℕ, ◌==◌, ℤ, negsuc, pos, Bool, true, false, ◌&&◌, not, Option, none, some, List, [], ◌∷◌, Text,
  codes, is_empty, same, length, if◌then◌else◌, any,
}
use gotchi.Errors.{plain, Result, ok, err}
use gotchi.Database.Users.{Membership}
use gotchi.Database.Connection.{M}
use gotchi.Identity.Types.{Identity, UserRef, TenantDisplay, SessionClaims}
use gotchi.Web.Http.{
  Response, Cookie, http_error, redirect, json, tenant_selection_required, TenantResponse, tenants,
  no_body,
}
use gotchi.Web.Session.{Sessions, Stored, claims, text, as_claims, as_text}
use gotchi.Web.Tenant.{Uuids}
use gotchi.Web.Handling.{
  H, answer, give, or_answer, ask, insist, set_cookie, get_session, set_session, ◌>>=◌, ◌>>◌,
}
use gotchi.Auth.Default
use gotchi.Auth.Config.{Config, with_defaults, secure_flag}
use gotchi.Auth.Oidc.{OidcAuthenticator, Token, UserInfoClaims, verify_id_token}
use gotchi.Auth.Subject.{resolve_subject_from_claims, accepts_html}

pub record IdentityStore : Type 0 where
  pub resolve_or_provision_user : Identity → M UserRef
  pub list_memberships : ℕ → M (List Membership)
  pub get_tenant_display : ℕ → M TenantDisplay

-- What the handlers read of a request. `body_tenant_id` is the field `tenant_id` of the JSON body.
pub record Request : Type 0 where
  pub cookie : Text → Option Text
  pub query : Text → Text
  pub header : Text → Text
  pub body_tenant_id : Result Text

pub record OidcHandler : Type 0 where
  -- with its defaults
  pub cfg : Config
  pub oidc : OidcAuthenticator
  pub store : IdentityStore
  pub unicode_trim : Text → Text
  -- url.Parse of the first, with the query parameters post_logout_redirect_uri and id_token_hint
  pub logout_url : Text → Text → Text → Result Text

abbrev pub id_token_key : Text
id_token_key = codes "auth.id_token"

abbrev pub state_cookie : Config → Text → ℤ → Cookie
state_cookie cfg value max_age = record {
  name = cfg.state_cookie_name;
  value = value;
  max_age = max_age;
  secure = secure_flag cfg.cookie_secure;
  http_only = true;
}

-- the result of a lookup, as an error where it is missing
abbrev pub found : Option Text → Result Text
found none = err (plain "missing")
found (some t) = ok t

-- active tenant of a new login
abbrev pub only_tenant : List Membership → Option ℕ
only_tenant [] = none
only_tenant (m ∷ []) = some m.tenant_id
only_tenant (m ∷ n ∷ ms) = none

abbrev pub identity_of : Text → Text → UserInfoClaims → Identity
identity_of issuer subject c = record {
  issuer = issuer;
  subject = subject;
  email = c.email;
  email_verified = c.email_verified;
  username = c.nickname;
  name = c.name;
  preferred_username = c.preferred_username;
}

abbrev pub new_session : UserRef → List Membership → SessionClaims
new_session ref memberships = record {
  authenticated = true;
  user_id = ref.user_id;
  issuer = ref.issuer;
  subject = ref.subject;
  active_tenant_id = only_tenant memberships;
}

abbrev pub raw_or_empty : Option Text → Text
raw_or_empty none = []
raw_or_empty (some t) = t

abbrev pub authenticated_claims : Option SessionClaims → Result SessionClaims
authenticated_claims none = err (plain "no claims")
authenticated_claims (some c) =
    if not c.authenticated then err (plain "not authenticated") else ok c

abbrev pub allowed : ℕ → List Membership → Bool
allowed id ms = any (λ m. m.tenant_id == id) ms

abbrev pub parse_result : Option ℕ → Result ℕ
parse_result none = err (plain "invalid UUID")
parse_result (some id) = ok id

abbrev pub is_active : Option ℕ → ℕ → Bool
is_active none id = false
is_active (some active) id = active == id

abbrev pub display_name : Result TenantDisplay → Text
display_name (ok d) = d.name
display_name (err e) = []

unfoldable pub new_oidc_handler_with_authenticator :
    (Text → Text)
    → (Text → Text → Text → Result Text)
    → Config
    → OidcAuthenticator
    → IdentityStore
    → OidcHandler
new_oidc_handler_with_authenticator unicode_trim logout_url cfg authenticator store = record {
  cfg = with_defaults cfg;
  oidc = authenticator;
  store = store;
  unicode_trim = unicode_trim;
  logout_url = logout_url;
}

abbrev with_authenticator :
    (OidcAuthenticator → OidcHandler) → Result OidcAuthenticator → Result OidcHandler
with_authenticator f (ok a) = ok (f a)
with_authenticator f (err e) = err e

-- `connect` is NewOIDCAuthenticator on its own parameters
unfoldable pub new_oidc_handler :
    (Text → Text)
    → (Text → Text → Text → Result Text)
    → (Config → Result OidcAuthenticator)
    → Config
    → Option IdentityStore
    → Result OidcHandler
unfolding new_oidc_handler_with_authenticator
new_oidc_handler unicode_trim logout_url connect cfg none = err (plain "identity store is required")
new_oidc_handler unicode_trim logout_url connect cfg (some store) =
    let conf = with_defaults cfg in
    with_authenticator
      (λ a. new_oidc_handler_with_authenticator unicode_trim logout_url conf a store) (connect conf)
