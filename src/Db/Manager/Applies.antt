-- ===== src/Db/Manager/Applies.antt =====
-- What RunMigrations of db/db.go applies.
use gotchi.Base.{◌≡◌, none, some, List}
use gotchi.Errors.{ok}
use gotchi.Web.Context.{Context}
use gotchi.Db.Tenancy.{admin_context}
use gotchi.Db.Migrations.{MigrationSource, Files}
use gotchi.Db.Migrations.FlatFs.{flat_files}
use gotchi.Db.Migrations.Files.{Distinct}
use gotchi.Db.Migrations.Merge.{all_files}
use gotchi.Db.Manager.{Driver, Manager}

module _ (d : Driver) where
  -- the migrations are all the files of the sources, as one file system in the order of their names,
  -- and goose has applied them as system tenant
  abbrev pub Applied : Context → d.Pool → List MigrationSource → Type 0
  Applied ctx pool sources =
      (files : Files) × (all_files sources ≡ ok files)
      × Distinct files
      × (d.set_dialect ≡ none)
      × (d.up (admin_context (some ctx)) pool (flat_files files) ≡ none)
