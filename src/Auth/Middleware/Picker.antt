-- ===== src/Auth/Middleware/Picker.antt =====
-- A tenant picker at a path of its own, with the default of AllowPathsWithoutTenant.
use gotchi.Base.{◌≡◌, true, false, none, some, [], ◌∷◌, Text, codes, is_empty, same}
use gotchi.Strings.{has_suffix, has_prefix}
use gotchi.Identity.Types.{SessionClaims}
use gotchi.Web.Http.{Response, redirect}
use gotchi.Web.Context.{Context}
use gotchi.Web.Session.{Sessions, as_claims}
use gotchi.Web.Tenant.{Uuids}
use gotchi.Auth.Middleware.{
  MiddlewareConfig, mode_ui, with_defaults, serve, require_authenticated, is_tenant_optional_path,
  allows, handle_tenant_required,
}

module _ (u : Uuids) (s : Sessions) (next : Context → Response) where
  not_optional :
      (p : Text)
      → same p (codes "/auth/tenants") ≡ false
      → same p (codes "/auth/tenant/select") ≡ false
      → is_tenant_optional_path p (codes "/auth/tenants" ∷ codes "/auth/tenant/select" ∷ []) ≡ false
  unfolding is_tenant_optional_path allows has_suffix has_prefix
  not_optional p other other' = rw (other, other')

  -- In ModeUI with no list of open paths and a picker at a path that is none of the two of the
  -- default list, the request of a user without an active tenant for the picker is redirected to the
  -- picker.
  pub custom_picker_loops :
      (cfg : MiddlewareConfig) (session : s.Session) (c : SessionClaims) (ctx : Context)
      → cfg.mode ≡ mode_ui
      → cfg.allow_paths_without_tenant ≡ []
      → is_empty cfg.tenant_picker_path ≡ false
      → same cfg.tenant_picker_path (codes "/auth/tenants") ≡ false
      → same cfg.tenant_picker_path (codes "/auth/tenant/select") ≡ false
      → as_claims (s.get (with_defaults cfg).session_key session) ≡ some c
      → c.authenticated ≡ true
      → c.active_tenant_id ≡ none
      → require_authenticated u s next cfg session cfg.tenant_picker_path ctx
        ≡ redirect cfg.tenant_picker_path 303
  unfolding require_authenticated serve with_defaults handle_tenant_required
  custom_picker_loops cfg session c ctx ui default given other other' stored logged missing = rw (
    stored,
    logged,
    missing,
    default,
    not_optional cfg.tenant_picker_path other other',
    ui,
    given,
  )
