-- ===== src/Auth/Oidc.antt =====
-- auth/oidc.go over golang.org/x/oauth2 and go-oidc, which are parameters: what they answer.
use gotchi.Base.{Bool, ◌||◌, Option, none, some, Text, is_empty, if◌then◌else◌, []}
use gotchi.Errors.{plain, Result, ok, err}
use gotchi.Auth.Config.{Config, with_defaults}

pub record Token : Type 0 where
  pub access_token : Text
  -- token.Extra("id_token"), where it is a string
  pub id_token : Option Text

-- the fields that the program reads
pub record UserInfoClaims : Type 0 where
  pub sub : Text
  pub email : Text
  pub email_verified : Bool
  pub name : Text
  pub nickname : Text
  pub preferred_username : Text

-- The token, the ID token and the user info are what the provider sent; the claims are decoded
-- from them.
pub record Provider : Type 0 where
  pub auth_code_url : Text → Text
  pub exchange : Text → Result Token
  pub verify : Text → Result Text
  pub subject_of : Text → Result Text
  pub user_info : Token → Result Text
  pub user_claims : Text → Result UserInfoClaims

pub record OidcAuthenticator : Type 0 where
  pub provider : Provider
  pub issuer_url : Text
  pub end_session_endpoint : Text

unfoldable pub new_oidc_authenticator_with_provider :
    Config → Option Provider → Result OidcAuthenticator
new_oidc_authenticator_with_provider cfg none = err (plain "oidc provider is required")
new_oidc_authenticator_with_provider cfg (some p) =
    ok (record { provider = p; issuer_url = cfg.issuer_url; end_session_endpoint = [] })

-- `provider.Claims` into the end session endpoint; an error leaves it empty
abbrev pub Discovered : Type 0
Discovered = Provider × Result Text

abbrev end_session_of : Result Text → Text
end_session_of (ok t) = t
end_session_of (err e) = []

abbrev discovered : Config → Result Discovered → Result OidcAuthenticator
discovered cfg (err e) = err e
discovered cfg (ok (p, claims)) = ok (record {
  provider = p;
  issuer_url = cfg.issuer_url;
  end_session_endpoint = end_session_of claims;
})

abbrev parsed : Config → (Text → Result Discovered) → Result Text → Result OidcAuthenticator
parsed cfg discover (err e) = err e
parsed cfg discover (ok issuer) = discovered cfg (discover issuer)

-- `url_parse` is url.Parse and then String, `discover` is oidc.NewProvider
unfoldable pub new_oidc_authenticator :
    (Text → Result Text) → (Text → Result Discovered) → Config → Result OidcAuthenticator
new_oidc_authenticator url_parse discover cfg =
    let c = with_defaults cfg in
    if is_empty c.issuer_url
      || is_empty c.client_id
      || is_empty c.client_secret
      || is_empty c.redirect_url
    then err (plain "issuer URL, client ID, client secret, and redirect URL are required")
    else parsed c discover (url_parse c.issuer_url)

abbrev verify_raw : Provider → Option Text → Result Text
verify_raw p none = err (plain "id_token missing from oauth2 token")
verify_raw p (some raw) = p.verify raw

unfoldable pub verify_id_token : OidcAuthenticator → Token → Result Text
verify_id_token o token = verify_raw o.provider token.id_token
