-- ===== src/Auth/Journey.antt =====
-- The handlers of auth/handler.go and the middleware of auth/middleware.go on the same session.
use gotchi.Base.{◌≡◌, refl, Text}
use gotchi.Errors.{ok}
use gotchi.Web.Http.{Response}
use gotchi.Web.Context.{Context}
use gotchi.Web.Session.{Sessions}
use gotchi.Web.Tenant.{Uuids}
use gotchi.Web.Handling.{World, run, ◌>>=◌}
use gotchi.Auth.Middleware.{
  MiddlewareConfig, with_defaults, serve, require_authenticated, handle_unauthenticated,
}
use gotchi.Auth.Handler.{OidcHandler}
use gotchi.Auth.Handler.Tenants.{logout_handler}

module _ (u : Uuids) (s : Sessions) (h : OidcHandler) (next : Context → Response) where
  -- A logout whose Destroy succeeds answers 303, and from then on the middleware treats the session
  -- as that of nobody, with any configuration and on any path.
  pub logout_locks_out :
      (w : World s.Session) (after : s.Session) (cfg : MiddlewareConfig) (path : Text)
      (ctx : Context)
      → s.destroy w.session ≡ ok after
      → ((run (logout_handler u s h) w).0.status ≡ 303)
        × (require_authenticated u s next cfg (run (logout_handler u s h) w).1.session path ctx
            ≡ handle_unauthenticated (with_defaults cfg))
  unfolding logout_handler ◌>>=◌ require_authenticated serve
  logout_locks_out w after cfg path ctx destroyed = (
    rw (destroyed) refl,
    rw (destroyed, s.get-destroy (with_defaults cfg).session_key w.session after destroyed) refl,
  )
