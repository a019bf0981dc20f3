-- ===== src/Auth/Middleware.antt =====
-- auth/middleware.go. The rest of the chain, `next`, is a function of the request's context.
pub mod Guard
pub mod Paths
pub mod Picker
use gotchi.Base.{
  ℕ, Bool, true, false, ◌&&◌, not, Option, none, some, List, [], ◌∷◌, Text, codes, is_empty, same,
  if◌then◌else◌,
}
use gotchi.Strings.{has_prefix, has_suffix, trim_suffix}
use gotchi.Identity.Types.{SessionClaims}
use gotchi.Web.Http.{Response, http_error, redirect, json, tenant_selection_required}
use gotchi.Web.Context.{Context, legacy, Value, claims, text, with_value, with_session_claims}
use gotchi.Web.Session.{Sessions, as_claims}
use gotchi.Web.Tenant.{Uuids, with_tenant_id}
use gotchi.Auth.Config.{or_default}
use gotchi.Auth.Default

pub data Mode : Type 0 where
  -- the empty string, which withDefaults replaces
  unset_mode mode_api mode_ui : Mode

pub record MiddlewareConfig : Type 0 where
  pub mode : Mode
  pub session_key : Text
  pub login_path : Text
  pub tenant_picker_path : Text
  pub allow_paths_without_tenant : List Text
  -- the keys of the application, where it gives them
  pub legacy_tenant_context_key : Option ℕ
  pub legacy_claims_context_key : Option ℕ

abbrev or_api : Mode → Mode
or_api unset_mode = mode_api
or_api mode_api = mode_api
or_api mode_ui = mode_ui

abbrev or_paths : List Text → List Text
or_paths [] = Default.tenant_picker_path ∷ codes "/auth/tenant/select" ∷ []
or_paths (p ∷ ps) = p ∷ ps

unfoldable pub with_defaults : MiddlewareConfig → MiddlewareConfig
with_defaults c = record c {
  session_key = or_default c.session_key Default.session_key;
  login_path = or_default c.login_path Default.login_path;
  tenant_picker_path = or_default c.tenant_picker_path Default.tenant_picker_path;
  mode = or_api c.mode;
  allow_paths_without_tenant = or_paths c.allow_paths_without_tenant;
}

abbrev pub star : Text
star = codes "*"

-- one round of the loop of isTenantOptionalPath
unfoldable pub allows : Text → Text → Bool
allows path allow_path =
    if is_empty allow_path
    then false
    else if has_suffix allow_path star
    then has_prefix path (trim_suffix allow_path star)
    else same path allow_path

unfoldable pub is_tenant_optional_path : Text → List Text → Bool
unfolding allows
is_tenant_optional_path path [] = false
is_tenant_optional_path path (a ∷ rest) =
    let later = is_tenant_optional_path path rest in if allows path a then true else later

abbrev by_mode : Mode → Response → Response → Response
by_mode unset_mode ui api = api
by_mode mode_api ui api = api
by_mode mode_ui ui api = ui

unfoldable pub handle_unauthenticated : MiddlewareConfig → Response
handle_unauthenticated cfg =
    by_mode cfg.mode (redirect cfg.login_path 303) (http_error "unauthorized" 401)

unfoldable pub handle_tenant_required : MiddlewareConfig → Response
handle_tenant_required cfg =
    by_mode cfg.mode (redirect cfg.tenant_picker_path 303)
      (json 409 (tenant_selection_required none))

abbrev pub with_legacy : Option ℕ → Value → Context → Context
with_legacy none v ctx = ctx
with_legacy (some k) v ctx = with_value ctx (legacy k) v

abbrev pub is_nil : Option ℕ → Bool
is_nil none = true
is_nil (some _) = false

module _ (u : Uuids) where
  unfoldable pub enter_tenant : MiddlewareConfig → Option ℕ → Context → Context
  unfolding with_tenant_id
  enter_tenant conf none ctx = ctx
  enter_tenant conf (some id) ctx =
      with_legacy conf.legacy_tenant_context_key (text (u.print id)) (with_tenant_id u ctx id)

  -- the context that `next` gets
  unfoldable pub authenticated_context : MiddlewareConfig → SessionClaims → Context → Context
  unfolding enter_tenant with_session_claims
  authenticated_context conf c ctx =
      with_legacy conf.legacy_claims_context_key (claims c)
        (enter_tenant conf c.active_tenant_id (with_session_claims ctx c))

module _ (u : Uuids) (s : Sessions) (next : Context → Response) where
  unfoldable pub serve : MiddlewareConfig → Option SessionClaims → Text → Context → Response
  unfolding handle_unauthenticated handle_tenant_required is_tenant_optional_path
      authenticated_context
  serve conf none path ctx = handle_unauthenticated conf
  serve conf (some c) path ctx =
      if not c.authenticated
      then handle_unauthenticated conf
      else if is_nil c.active_tenant_id
          && not (is_tenant_optional_path path conf.allow_paths_without_tenant)
      then handle_tenant_required conf
      else next (authenticated_context u conf c ctx)

  -- RequireAuthenticated(sessionManager, cfg)(next), on the request's session, path and context
  unfoldable pub require_authenticated : MiddlewareConfig → s.Session → Text → Context → Response
  unfolding with_defaults serve
  require_authenticated cfg session path ctx =
      let conf = with_defaults cfg in
      serve conf (as_claims (s.get conf.session_key session)) path ctx
