-- ===== src/Auth/Handler/Tenants.antt =====
-- ListTenantsHandler, SelectTenantHandler and LogoutHandler of auth/handler.go.
pub mod Select
pub mod Listing
use gotchi.Base.{ℕ, Bool, Option, none, some, List, [], ◌∷◌, Text, is_empty, if◌then◌else◌}
use gotchi.Errors.{Result, ok, err}
use gotchi.Database.Users.{Membership}
use gotchi.Identity.Types.{SessionClaims}
use gotchi.Web.Http.{Response, http_error, redirect, json, TenantResponse, tenants, no_body}
use gotchi.Web.Session.{Sessions, claims, as_claims, as_text}
use gotchi.Web.Tenant.{Uuids}
use gotchi.Web.Handling.{
  H, answer, give, or_answer, ask, insist, set_cookie, get_session, set_session, ◌>>=◌, ◌>>◌,
}
use gotchi.Auth.Handler.{
  Request, OidcHandler, id_token_key, authenticated_claims, allowed, parse_result, is_active,
  display_name,
}

module _ (u : Uuids) (s : Sessions) (h : OidcHandler) where
  unfoldable pub get_session_claims : s.Session → Result SessionClaims
  get_session_claims session = authenticated_claims (as_claims (s.get h.cfg.session_key session))

  -- the name of a tenant, looked up where the membership has none
  unfoldable pub tenant_name : Membership → H s.Session Text
  tenant_name m =
      if is_empty m.tenant_name
      then (do display ← ask (h.store.get_tenant_display m.tenant_id); give (display_name display))
      else give m.tenant_name

  abbrev pub tenant_entry : SessionClaims → Membership → Text → TenantResponse
  tenant_entry c m name = record {
    tenant_id = u.print m.tenant_id;
    name = name;
    role = m.role;
    is_active = is_active c.active_tenant_id m.tenant_id;
  }

  unfoldable pub describe : SessionClaims → List Membership → H s.Session (List TenantResponse)
  unfolding tenant_name
  describe c [] = give []
  describe c (m ∷ ms) = do
    name ← tenant_name m
    rest ← describe c ms
    give (tenant_entry c m name ∷ rest)

  unfoldable pub list_tenants_handler : H s.Session Response
  unfolding get_session_claims describe
  list_tenants_handler = do
    session ← get_session
    c ← or_answer "unauthorized" 401 (get_session_claims session)
    listed ← ask (h.store.list_memberships c.user_id)
    memberships ← or_answer "failed to list memberships" 500 listed
    response ← describe c memberships
    give (json 200 (tenants response))

  unfoldable pub select_tenant_handler : Request → H s.Session Response
  unfolding get_session_claims
  select_tenant_handler r = do
    session ← get_session
    c ← or_answer "unauthorized" 401 (get_session_claims session)
    payload ← or_answer "invalid request body" 400 r.body_tenant_id
    id ← or_answer "invalid tenant_id" 400 (parse_result (u.parse payload))
    listed ← ask (h.store.list_memberships c.user_id)
    memberships ← or_answer "failed to list memberships" 500 listed
    insist (allowed id memberships) "tenant not allowed" 403
    set_session (s.put h.cfg.session_key (claims (record c { active_tenant_id = some id })) session)
    give (record { status = 204; location = none; body = no_body })

  abbrev parsed_or : Text → Result Text → Text
  parsed_or home (ok url) = url
  parsed_or home (err e) = home

  unfoldable pub logout_target : Text → Text
  logout_target raw =
      let home = h.cfg.post_logout_redirect in
      if is_empty h.oidc.end_session_endpoint
      then home
      else parsed_or home (h.logout_url h.oidc.end_session_endpoint home raw)

  unfoldable pub logout_handler : H s.Session Response
  unfolding logout_target
  logout_handler = do
    session ← get_session
    let raw = as_text (s.get id_token_key session)
    after ← or_answer "failed to destroy session" 500 (s.destroy session)
    set_session after
    give (redirect (logout_target raw) 303)
