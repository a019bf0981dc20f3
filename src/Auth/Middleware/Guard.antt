-- ===== src/Auth/Middleware/Guard.antt =====
-- RequireAuthenticated of auth/middleware.go: whom it lets through, and with which context.
use mathlib.Core.Path.{◌∙◌}
use gotchi.Base.{
  ap, Option-cases, ℕ, ◌≡◌, refl, Bool, true, false, Option, none, some, Text, Bool-cases, inl, inr,
  ◌⊎◌,
}
use gotchi.Identity.Types.{SessionClaims}
use gotchi.Web.Http.{Response}
use gotchi.Web.Context.{
  Context, Value, claims, text, value, with_session_claims, session_claims_from_context,
}
use gotchi.Web.Session.{Sessions, as_claims}
use gotchi.Web.Tenant.{Uuids, with_tenant_id, tenant_id, tenant_id_string, tenant_id-of_set}
use gotchi.Auth.Middleware.{
  MiddlewareConfig, with_defaults, with_legacy, enter_tenant, authenticated_context, serve,
  require_authenticated, is_tenant_optional_path, handle_unauthenticated, handle_tenant_required,
}

-- The tenant that a handler reads: the one of the claims, else the one of the context before.
abbrev pub or_before : Option ℕ → Option ℕ → Option ℕ
or_before none before = before
or_before (some id) before = some id

abbrev logged_in : Option SessionClaims → Bool
logged_in none = false
logged_in (some c) = c.authenticated

abbrev HasTenant : Option ℕ → Type 0
HasTenant active = (id : ℕ) × (active ≡ some id)

module _ (u : Uuids) where
  claims_under_legacy :
      (k : Option ℕ) (v : Value) (ctx : Context)
      → session_claims_from_context (with_legacy k v ctx) ≡ session_claims_from_context ctx
  unfolding value session_claims_from_context
  claims_under_legacy none v ctx = refl
  claims_under_legacy (some k) v ctx = refl

  tenant_under_legacy :
      (k : Option ℕ) (v : Value) (ctx : Context)
      → tenant_id u (with_legacy k v ctx) ≡ tenant_id u ctx
  unfolding value tenant_id tenant_id_string
  tenant_under_legacy none v ctx = refl
  tenant_under_legacy (some k) v ctx = refl

  tenant_under_entry :
      (conf : MiddlewareConfig) (active : Option ℕ) (ctx : Context)
      → tenant_id u (enter_tenant u conf active ctx) ≡ or_before active (tenant_id u ctx)
  unfolding enter_tenant
  tenant_under_entry conf none ctx = refl
  tenant_under_entry conf (some id) ctx =
      rw
        (tenant_under_legacy conf.legacy_tenant_context_key (text (u.print id))
          (with_tenant_id u ctx id))
        (tenant_id-of_set u ctx id)

  claims_under_entry :
      (conf : MiddlewareConfig) (active : Option ℕ) (ctx : Context)
      → session_claims_from_context (enter_tenant u conf active ctx)
        ≡ session_claims_from_context ctx
  unfolding enter_tenant session_claims_from_context value with_tenant_id
  claims_under_entry conf none ctx = refl
  claims_under_entry conf (some id) ctx =
      claims_under_legacy conf.legacy_tenant_context_key (text (u.print id))
        (with_tenant_id u ctx id)

  claims_of_set :
      (c : SessionClaims) (ctx : Context)
      → session_claims_from_context (with_session_claims ctx c) ≡ some c
  unfolding session_claims_from_context with_session_claims value
  claims_of_set c ctx = refl

  tenant_of_claims :
      (c : SessionClaims) (ctx : Context)
      → tenant_id u (with_session_claims ctx c) ≡ tenant_id u ctx
  unfolding tenant_id tenant_id_string with_session_claims value
  tenant_of_claims c ctx = refl

  pub authenticated_context_lem :
      (conf : MiddlewareConfig) (c : SessionClaims) (ctx : Context)
      → (session_claims_from_context (authenticated_context u conf c ctx) ≡ some c)
        × (tenant_id u (authenticated_context u conf c ctx)
            ≡ or_before c.active_tenant_id (tenant_id u ctx))
  unfolding authenticated_context
  authenticated_context_lem conf c ctx =
      let inner = with_session_claims ctx c in
      let active = c.active_tenant_id in
      let entered = enter_tenant u conf active inner in
      let key = conf.legacy_claims_context_key in
      (
        claims_under_legacy key (claims c) entered
            ∙ claims_under_entry conf active inner
            ∙ claims_of_set c ctx,
        tenant_under_legacy key (claims c) entered
            ∙ tenant_under_entry conf active inner
            ∙ ap (or_before active) (tenant_of_claims c ctx),
      )

abbrev Admitted :
    MiddlewareConfig
    → Option SessionClaims
    → Text
    → Context
    → (Context → Response)
    → Uuids
    → Response
    → Type 0
Admitted conf stored path ctx next u r =
    (c : SessionClaims) × (entered : Context) × (stored ≡ some c)
    × (c.authenticated ≡ true)
    × (HasTenant c.active_tenant_id
        ⊎ (is_tenant_optional_path path conf.allow_paths_without_tenant ≡ true))
    × (r ≡ next entered)
    × (session_claims_from_context entered ≡ some c)
    × (tenant_id u entered ≡ or_before c.active_tenant_id (tenant_id u ctx))

abbrev Unauthenticated : MiddlewareConfig → Option SessionClaims → Response → Type 0
Unauthenticated conf stored r =
    (r ≡ handle_unauthenticated conf)
    × ((c : SessionClaims) → stored ≡ some c → c.authenticated ≡ false)

abbrev WithoutTenant : MiddlewareConfig → Option SessionClaims → Text → Response → Type 0
WithoutTenant conf stored path r =
    (c : SessionClaims) × (r ≡ handle_tenant_required conf)
    × (stored ≡ some c)
    × (c.authenticated ≡ true)
    × (c.active_tenant_id ≡ none)
    × (is_tenant_optional_path path conf.allow_paths_without_tenant ≡ false)

abbrev pub Outcome :
    Uuids
    → (Context → Response)
    → MiddlewareConfig
    → Option SessionClaims
    → Text
    → Context
    → Response
    → Type 0
Outcome u next conf stored path ctx r =
    Admitted conf stored path ctx next u r
    ⊎ (Unauthenticated conf stored r ⊎ WithoutTenant conf stored path r)

module _ (u : Uuids) (s : Sessions) (next : Context → Response) where
  serve_lem :
      (conf : MiddlewareConfig) (stored : Option SessionClaims) (path : Text) (ctx : Context)
      → Outcome u next conf stored path ctx (serve u s next conf stored path ctx)
  unfolding serve
  serve_lem conf none path ctx = inr (inl (refl, λ c e. absurd (cc)))
  serve_lem conf (some c) path ctx =
      let (seen, tenant) = authenticated_context_lem u conf c ctx in
      elim (Bool-cases c.authenticated) [
        | inr out ↦ inr (inl (rw out refl, λ d e. (let agrees = ap logged_in e in cc)))
        | inl logged ↦ elim (Option-cases c.active_tenant_id) [
          | inr (id, active) ↦ inl (
            c,
            authenticated_context u conf c ctx,
            refl,
            logged,
            inl (id, active),
            rw logged (rw active refl),
            seen,
            tenant,
          )
          | inl missing ↦
              elim (Bool-cases (is_tenant_optional_path path conf.allow_paths_without_tenant)) [
                | inl optional ↦ inl (
                  c,
                  authenticated_context u conf c ctx,
                  refl,
                  logged,
                  inr optional,
                  rw logged (rw missing (rw optional refl)),
                  seen,
                  tenant,
                )
                | inr guarded ↦ inr (
                    inr
                      (c, rw logged (rw missing (rw guarded refl)), refl, logged, missing, guarded))
              ]
        ]
      ]

  -- Whatever the session holds, the middleware does one of three things. It calls `next`, only for
  -- claims that say authenticated and have an active tenant, or on a path that needs none; `next`
  -- then reads these claims, and as tenant the active one (the tenant that the context had before
  -- where there is none), under any choice of legacy keys. Without such claims it answers as
  -- handleUnauthenticated, and without an active tenant on another path as handleTenantRequired.
  pub require_authenticated-guards :
      (cfg : MiddlewareConfig) (session : s.Session) (path : Text) (ctx : Context)
      → Outcome u next
          (with_defaults cfg)
          (as_claims (s.get (with_defaults cfg).session_key session))
          path
          ctx
          (require_authenticated u s next cfg session path ctx)
  unfolding require_authenticated
  require_authenticated-guards cfg session path ctx =
      let conf = with_defaults cfg in
      serve_lem conf (as_claims (s.get conf.session_key session)) path ctx
