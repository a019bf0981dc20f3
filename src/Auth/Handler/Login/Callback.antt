-- ===== src/Auth/Handler/Login/Callback.antt =====
-- CallbackHandler: who is signed in, and with which claims.
use gotchi.Base.{◌≡◌, ◌⊎◌, false, some, Text, codes, same}
use gotchi.Errors.{ok}
use gotchi.Web.Http.{Response}
use gotchi.Web.Session.{Sessions}
use gotchi.Web.Handling.{World}
use gotchi.Web.Handling.Ensures.{Ensures}
use gotchi.Auth.Oidc.{Token, UserInfoClaims, verify_id_token}
use gotchi.Auth.Subject.{resolve_subject_from_claims}
use gotchi.Auth.Handler.{Request, OidcHandler, id_token_key, raw_or_empty}
use gotchi.Auth.Handler.Login.SignIn.{Refused, LoggedIn, SignIn}

module _ (s : Sessions) (h : OidcHandler)
    (separate : same id_token_key h.cfg.session_key ≡ false) where
  -- The request proved that it belongs to the browser that began the login, and the provider
  -- vouched for `sub` and `info`.
  abbrev pub Vouched : Request → Text → Text → Text → Type 0
  Vouched r raw sub info =
      (state : Text) × (token : Token) × (id_token : Text) × (r.cookie h.cfg.state_cookie_name
        ≡ some state)
      × (r.query (codes "state") ≡ state)
      × (h.oidc.provider.exchange (r.query (codes "code")) ≡ ok token)
      × (verify_id_token h.oidc token ≡ ok id_token)
      × (h.oidc.provider.subject_of id_token ≡ ok sub)
      × (h.oidc.provider.user_info token ≡ ok info)
      × (raw_or_empty token.id_token ≡ raw)

  abbrev pub CallbackOutcome : Request → World s.Session → Response → World s.Session → Type 0
  CallbackOutcome r w resp v =
      Refused s h separate w.session resp v
      ⊎ ((raw : Text) × (sub : Text) × (info : Text) × (user : UserInfoClaims) × (subject : Text)
          × Vouched r raw sub info
          × (h.oidc.provider.user_claims info ≡ ok user)
          × (resolve_subject_from_claims h.unicode_trim sub user.sub ≡ ok subject)
          × LoggedIn s h separate r raw subject user w resp v)
