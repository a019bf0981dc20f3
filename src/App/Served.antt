-- ===== src/App/Served.antt =====
-- What has happened before an application serves.
use gotchi.Base.{◌≡◌, ◌⊎◌, none, List, []}
use gotchi.Web.Context.{Context}
use gotchi.Db.Migrations.{MigrationSource}
use gotchi.Db.Manager.{Driver, Manager}
use gotchi.Db.Manager.Opens.{Opened}
use gotchi.Db.Manager.Applies.{Applied}
use gotchi.App.Builder.{Builder}
use gotchi.App.Middleware.{migration_sources}
use gotchi.App.Run.{Parts, build_logins, register_all}

module _ {Service : Type 0} (d : Driver) (p : Parts Service) (b : Builder Service)
    (ctx : Context) where
  -- the pool has the tenant hooks and answered the ping; goose has applied all files of the sources,
  -- if there is one; the logins are built and the modules registered
  abbrev pub IsPrepared : Manager d → List MigrationSource → Type 0
  IsPrepared m sources =
      (pool : d.Pool) × Opened d m ctx pool none
      × ((sources ≡ []) ⊎ Applied d ctx pool sources)
      × (build_logins p b ≡ none)
      × (register_all p b.modules ≡ none)

  abbrev sources : List MigrationSource
  sources = migration_sources p.core p.auth p.password b
