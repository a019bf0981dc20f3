-- ===== src/Cmd/Arguments.antt =====
-- The arguments of the commands of cmd/gotchi/main.go, and what each command does with them, the
-- export of migrations excepted.
pub mod Settings
pub mod Created
use gotchi.Base.{
  ℕ, ◌+◌, Bool, true, false, not, ◌&&◌, ◌||◌, ◌==◌, Option, none, some, List, [], ◌∷◌, ◌++◌, String,
  Text, codes, same, is_empty, if◌then◌else◌,
}
use gotchi.Errors.{Error, Result, ok, err, plain, wrap}
use gotchi.Strings.{has_prefix, trim_prefix, trim_space, to_lower, contains}
use gotchi.Cmd.Disk.{Disk, read_file, make_all}
use gotchi.Cmd.Scaffold.{FileMap, generate, write_files, then_next}
use gotchi.Cmd.Export.{Counts, Tools, run_migrations_export}

-- the variables of runInit
pub record InitArgs : Type 0 where
  pub app_name : Text
  pub module_path : Text
  pub output_dir : Text

-- What one round of the loop does: return an error, or take one argument or two.
pub data Round : Type 0 where
  stop : Error → Round
  takes_one takes_two : InitArgs → Round

abbrev module_value : InitArgs → Option Text → Round
module_value a none = stop (plain "missing value for --module")
module_value a (some v) = takes_two (record a { module_path = v })

abbrev output_value : InitArgs → Option Text → Round
output_value a none = stop (plain "missing value for --output")
output_value a (some v) = takes_two (record a { output_dir = v })

-- the cases of the switch; `next` is args[i+1], where there is one
unfoldable pub init_round : Text → Option Text → InitArgs → Round
init_round arg next a =
    if has_prefix arg (codes "--module=")
    then takes_one (record a { module_path = trim_prefix arg (codes "--module=") })
    else if same arg (codes "--module")
    then module_value a next
    else if has_prefix arg (codes "--output=")
    then takes_one (record a { output_dir = trim_prefix arg (codes "--output=") })
    else if same arg (codes "--output")
    then output_value a next
    else if has_prefix arg (codes "-")
    then stop (plain "unknown init flag")
    else if not (is_empty a.app_name)
    then stop (plain "unexpected extra argument")
    else takes_one (record a { app_name = arg })

abbrev last_round : Round → Result InitArgs
last_round (stop e) = err e
last_round (takes_one a) = ok a
last_round (takes_two a) = ok a

unfoldable pub init_loop : List Text → InitArgs → Result InitArgs
init_loop [] a = ok a
init_loop (arg ∷ []) a = last_round (init_round arg none a)
init_loop (arg ∷ v ∷ rest) a = elim (init_round arg (some v) a) [
  | stop e ↦ err e
  | takes_one a' ↦ init_loop (v ∷ rest) a'
  | takes_two a' ↦ init_loop rest a'
]

abbrev pub at_first : InitArgs
at_first = record { app_name = []; module_path = []; output_dir = codes "." }

-- filepath.Join and Dir, and the parts of package `unicode`
pub record Paths : Type 0 where
  pub join : Text → Text → Text
  pub dir : Text → Text
  pub unicode_trim : Text → Text
  pub unicode_lower : Text → Text

abbrev pub module_or_default : Text → Text → Text
module_or_default app_name given =
    if is_empty given then codes "github.com/kusold/" ++ app_name else given

module _ (paths : Paths) where
  unfoldable pub write_app : InitArgs → Disk → Result FileMap → Result (Unit {0}) × Disk
  write_app a d (err e) = (err e, d)
  write_app a d (ok files) =
      let target = paths.join a.output_dir a.app_name in
      then_next (write_files paths.join paths.dir target files) (make_all target d)

  unfoldable pub init_with : Disk → Result InitArgs → Result (Unit {0}) × Disk
  init_with d (err e) = (err e, d)
  init_with d (ok a) =
      if is_empty a.app_name
      then (err (plain "usage: gotchi init <app-name> [--module <module>] [--output <dir>]"), d)
      else write_app a d (
          generate paths.unicode_trim (record {
            app_name = a.app_name;
            mod_path = module_or_default a.app_name (trim_space paths.unicode_trim a.module_path);
          }))

  unfoldable pub run_init : List Text → Disk → Result (Unit {0}) × Disk
  run_init args d = init_with d (init_loop args at_first)

  unfoldable pub add_feature : Text → Result (Unit {0})
  add_feature feature =
      if same feature (codes "correlation-audit")
        || (same feature (codes "request-correlation") || same feature (codes "audit"))
      then ok tt
      else err (plain "unsupported feature; supported: correlation-audit")

  unfoldable pub run_add : List Text → Result (Unit {0})
  run_add (command ∷ name ∷ rest) =
      if same command (codes "feature")
      then add_feature (to_lower paths.unicode_lower name)
      else err (plain "usage: gotchi add feature <name>")
  run_add (command ∷ []) = err (plain "usage: gotchi add feature <name>")
  run_add [] = err (plain "usage: gotchi add feature <name>")

  abbrev failures : Bool → ℕ
  failures true = 0
  failures false = 1

  -- the checks on the two files, of which the output shows each
  unfoldable pub check_files : Text → Text → Result (Unit {0})
  check_files go_mod env_sample =
      let failed =
        failures (contains go_mod (codes "github.com/kusold/gotchi"))
        + failures (contains env_sample (codes "DATABASE_URL"))
        + failures (contains env_sample (codes "PORT")) in
      if failed == 0 then ok tt else err (plain "doctor found failing checks")

  abbrev check_env : Text → Result Text → Result (Unit {0})
  check_env go_mod (err e) = err (wrap "reading .env.sample" e)
  check_env go_mod (ok env_sample) = check_files go_mod env_sample

  abbrev check_root : Disk → Text → Result Text → Result (Unit {0})
  check_root d root (err e) = err (wrap "reading go.mod" e)
  check_root d root (ok go_mod) =
      check_env go_mod (read_file (paths.join root (codes ".env.sample")) d)

  abbrev check_parsed : Disk → Result Text → Result (Unit {0})
  check_parsed d (err e) = err e
  check_parsed d (ok root) = check_root d root (read_file (paths.join root (codes "go.mod")) d)

  -- `parse_root` is fs.Parse with the one flag --root
  unfoldable pub run_doctor : (List Text → Result Text) → List Text → Disk → Result (Unit {0})
  run_doctor parse_root args d = check_parsed d (parse_root args)

unfoldable pub run_migrations : Tools → List Text → Disk → Result Counts × Disk
run_migrations tools [] d = (err (plain "usage: gotchi migrations <subcommand>"), d)
run_migrations tools (command ∷ args) d =
    if same command (codes "export")
    then run_migrations_export tools args d
    else (err (plain "unknown migrations subcommand"), d)

-- an exit status, and the disk behind the command
abbrev status {ℓ} : {A : Type ℓ} → Result A → ℕ
status (ok a) = 0
status (err e) = 1

abbrev finished {ℓ} : {A : Type ℓ} → Result A × Disk → ℕ × Disk
finished r = (status r.0, r.1)

-- main, of os.Args[1:]
unfoldable pub main : Tools → Paths → (List Text → Result Text) → List Text → Disk → ℕ × Disk
main tools paths parse_root [] d = (2, d)
main tools paths parse_root (command ∷ args) d =
    if same command (codes "init")
    then finished (run_init paths args d)
    else if same command (codes "add")
    then (status (run_add paths args), d)
    else if same command (codes "doctor")
    then (status (run_doctor paths parse_root args d), d)
    else if same command (codes "migrations")
    then finished (run_migrations tools args d)
    else if same command (codes "help")
        || (same command (codes "-h") || same command (codes "--help"))
    then (0, d)
    else (1, d)
