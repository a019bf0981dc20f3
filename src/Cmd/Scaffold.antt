-- ===== src/Cmd/Scaffold.antt =====
-- internal/scaffold/scaffold.go: the files of a new application, and writing them.
pub mod Templates
pub mod Complete
pub mod Listing
use gotchi.Base.{Bool, true, false, List, [], ◌∷◌, map, Text, codes, is_empty, if◌then◌else◌}
use gotchi.Errors.{Error, Result, ok, err, plain}
use gotchi.Strings.{trim_space}
use gotchi.Db.Migrations.FlatFs.{sort_strings}
use gotchi.Cmd.Disk.{Disk, write_file, make_all}
use gotchi.Cmd.Scaffold.Templates.{
  go_mod, server_main, module_go, migrations_go, example_sql, env_sample, docker_compose, readme,
  workflow,
}

pub record Options : Type 0 where
  pub app_name : Text
  pub mod_path : Text

-- A map[string]string, by its keys and values in the order in which a range statement meets them.
abbrev pub FileMap : Type 0
FileMap = List (Text × Text)

unfoldable pub all_files : Text → Text → FileMap
all_files app_name mod_path =
    (codes "go.mod", go_mod mod_path)
    ∷ (codes "cmd/server/main.go", server_main mod_path)
    ∷ (codes "internal/module/module.go", module_go)
    ∷ (codes "migrations/migrations.go", migrations_go)
    ∷ (codes "migrations/20260101000000_example.sql", example_sql)
    ∷ (codes ".env.sample", env_sample app_name)
    ∷ (codes "docker-compose.yaml", docker_compose app_name)
    ∷ (codes "README.md", readme app_name)
    ∷ (codes ".github/workflows/test.yaml", workflow)
    ∷ []

-- `unicode_trim` is the part of strings.TrimSpace for texts that are not ASCII
unfoldable pub generate : (Text → Text) → Options → Result FileMap
generate unicode_trim opts =
    if is_empty (trim_space unicode_trim opts.app_name)
    then err (plain "app name is required")
    else if is_empty (trim_space unicode_trim opts.mod_path)
    then err (plain "module path is required")
    else ok (all_files opts.app_name opts.mod_path)

abbrev pub then_next {ℓ} :
    {A : Type ℓ} → (Disk → Result A × Disk) → Result (Unit {0}) × Disk → Result A × Disk
then_next f (ok u, d) = f d
then_next f (err e, d) = (err e, d)

-- `join` and `dir` are filepath.Join and filepath.Dir
module _ (join : Text → Text → Text) (dir : Text → Text) where
  unfoldable pub write_one : Text → Text → Disk → Result (Unit {0}) × Disk
  write_one target content d = then_next (write_file target content) (make_all (dir target) d)

  -- Write, in the order in which the map is ranged over
  unfoldable pub write_files : Text → FileMap → Disk → Result (Unit {0}) × Disk
  write_files root [] d = (ok tt, d)
  write_files root ((path, content) ∷ rest) d =
      then_next (write_files root rest) (write_one (join root path) content d)

unfoldable pub file_list : FileMap → List Text
file_list files = sort_strings (map (λ f. f.0) files)
