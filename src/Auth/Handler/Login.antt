-- ===== src/Auth/Handler/Login.antt =====
-- AuthorizeHandler and CallbackHandler of auth/handler.go.
pub mod SignIn
pub mod Callback
use gotchi.Base.{
  ℕ, negsuc, Bool, Option, none, some, List, [], ◌∷◌, Text, codes, is_empty, same, length,
  if◌then◌else◌,
}
use gotchi.Errors.{Result}
use gotchi.Database.Users.{Membership}
use gotchi.Identity.Types.{UserRef, SessionClaims}
use gotchi.Web.Http.{Response, http_error, redirect, json, tenant_selection_required}
use gotchi.Web.Session.{Sessions, claims, text}
use gotchi.Web.Handling.{
  H, answer, give, or_answer, ask, insist, set_cookie, get_session, set_session, ◌>>=◌, ◌>>◌,
}
use gotchi.Auth.Default
use gotchi.Auth.Oidc.{verify_id_token}
use gotchi.Auth.Subject.{resolve_subject_from_claims, accepts_html}
use gotchi.Auth.Handler.{
  Request, OidcHandler, id_token_key, state_cookie, found, identity_of, new_session, raw_or_empty,
}

module _ (s : Sessions) (h : OidcHandler) where
  -- `state` is what generateState gives
  unfoldable pub authorize_handler : Result Text → H s.Session Response
  authorize_handler state = do
    value ← or_answer "failed to generate state" 500 state
    set_cookie (state_cookie h.cfg value Default.cookie_max_age_second)
    give (redirect (h.oidc.provider.auth_code_url value) 302)

  unfoldable pub handle_tenant_selection_required : Request → List Membership → Response
  unfolding accepts_html
  handle_tenant_selection_required r memberships =
      if accepts_html h.unicode_trim r.header
      then redirect h.cfg.tenant_picker_path 303
      else json 409 (tenant_selection_required (some (length memberships)))

  abbrev pub login_response : Request → Option ℕ → List Membership → Response
  login_response r none memberships = handle_tenant_selection_required r memberships
  login_response r (some id) memberships = redirect h.cfg.post_login_redirect 303

  -- session.Put of the claims, and of the ID token unless it is empty
  unfoldable pub login_session : SessionClaims → Text → s.Session → s.Session
  login_session c raw session =
      let logged = s.put h.cfg.session_key (claims c) session in
      if is_empty raw then logged else s.put id_token_key (text raw) logged

  -- from the memberships on
  unfoldable pub start_session : Request → Text → UserRef → List Membership → H s.Session Response
  unfolding login_session
  start_session r raw ref [] = answer (http_error "user has no tenant memberships" 403)
  start_session r raw ref (m ∷ ms) = do
    session ← get_session
    let c = new_session ref (m ∷ ms)
    set_session (login_session c raw session)
    give (login_response r c.active_tenant_id (m ∷ ms))

  -- from the verified subject on
  unfoldable pub sign_in : Request → Text → Text → Text → H s.Session Response
  unfolding start_session resolve_subject_from_claims
  sign_in r raw id_token_sub info = do
    user ← or_answer "failed to parse user claims" 500 (h.oidc.provider.user_claims info)
    subject ←
        or_answer "invalid subject claims" 401
          (resolve_subject_from_claims h.unicode_trim id_token_sub user.sub)
    resolved ← ask (h.store.resolve_or_provision_user (identity_of h.oidc.issuer_url subject user))
    ref ← or_answer "failed to resolve user" 500 resolved
    listed ← ask (h.store.list_memberships ref.user_id)
    memberships ← or_answer "failed to list memberships" 500 listed
    start_session r raw ref memberships

  unfoldable pub callback_handler : Request → H s.Session Response
  unfolding sign_in verify_id_token
  callback_handler r = do
    state ← or_answer "state not found" 400 (found (r.cookie h.cfg.state_cookie_name))
    insist (same (r.query (codes "state")) state) "state did not match" 400
    set_cookie (state_cookie h.cfg [] (negsuc 0))
    token ←
        or_answer "failed to exchange token" 500 (h.oidc.provider.exchange (r.query (codes "code")))
    id_token ← or_answer "failed to verify id token" 401 (verify_id_token h.oidc token)
    sub ← or_answer "failed to parse id token claims" 401 (h.oidc.provider.subject_of id_token)
    info ← or_answer "failed to get user info" 500 (h.oidc.provider.user_info token)
    sign_in r (raw_or_empty token.id_token) sub info
