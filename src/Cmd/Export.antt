-- ===== src/Cmd/Export.antt =====
-- runMigrationsExport of cmd/gotchi/main.go.
pub mod Keeps
pub mod Kept
pub mod Written
pub mod Again
pub mod Twice
use gotchi.Base.{
  String, ℕ, ◌+◌, Bool, true, false, ◌&&◌, ◌||◌, not, Option, List, [], ◌∷◌, ◌++◌, Text, codes,
  same, if◌then◌else◌,
}
use gotchi.Errors.{Error, Result, ok, err, plain, wrap}
use gotchi.Cmd.Disk.{Disk, read_file, write_file, make_all}

-- What flags.Parse leaves in the variables.
pub record ExportFlags : Type 0 where
  pub output_dir : Text
  pub force : Bool
  pub skip : Bool
  pub component : Text

-- An entry of an embedded directory, with what fs.ReadFile answers for it.
pub record Entry : Type 0 where
  pub name : Text
  pub is_dir : Bool
  pub content : Result Text

-- A migrationSource, with what fs.ReadDir answers.
pub record Source : Type 0 where
  pub name : Text
  pub entries : Result (List Entry)

pub record Counts : Type 0 where
  pub copied : ℕ
  pub skipped : ℕ
  pub unchanged : ℕ

abbrev pub none_yet : Counts
none_yet = record { copied = 0; skipped = 0; unchanged = 0 }

abbrev pub one_copied : Counts → Counts
one_copied n = record n { copied = n.copied + 1 }

abbrev pub one_skipped : Counts → Counts
one_skipped n = record n { skipped = n.skipped + 1 }

abbrev pub one_unchanged : Counts → Counts
one_unchanged n = record n { unchanged = n.unchanged + 1 }

-- crypto/sha256.Sum256, filepath.Join, flags.Parse, and the embedded migrations.Core() and Auth()
pub record Tools : Type 0 where
  pub sum256 : Text → Text
  pub join : Text → Text → Text
  pub parse : List Text → Result ExportFlags
  pub core : Result (List Entry)
  pub auth : Result (List Entry)

abbrev pub after_write : Counts → Result (Unit {0}) × Disk → Result Counts × Disk
after_write n (ok _, d) = (ok (one_copied n), d)
after_write n (err e, d) = (err (wrap "writing" e), d)

abbrev pub then_with :
    (Counts → Disk → Result Counts × Disk) → Result Counts × Disk → Result Counts × Disk
then_with f (ok n, d) = f n d
then_with f (err e, d) = (err e, d)

module _ (tools : Tools) (flags : ExportFlags) where
  -- behind os.ReadFile of the target
  unfoldable pub settle : Text → Text → Counts → Disk → Result Text → Result Counts × Disk
  settle path embedded n d (err e) = after_write n (write_file path embedded d)
  settle path embedded n d (ok existing) =
      if same (tools.sum256 existing) (tools.sum256 embedded)
      then (ok (one_unchanged n), d)
      else if flags.skip
      then (ok (one_skipped n), d)
      else if not flags.force
      then (
        err (
            plain
              "file already exists with different content (use --force to overwrite or --skip to skip)"),
        d,
      )
      else after_write n (write_file path embedded d)

  unfoldable pub export_content : Text → Counts → Disk → Result Text → Result Counts × Disk
  export_content path n d (err e) = (err (wrap "reading embedded file" e), d)
  export_content path n d (ok embedded) = settle path embedded n d (read_file path d)

  -- one round of the inner loop
  unfoldable pub export_entry : Text → Entry → Counts → Disk → Result Counts × Disk
  export_entry dir entry n d =
      if entry.is_dir
      then (ok n, d)
      else export_content (tools.join dir entry.name) n d entry.content

  unfoldable pub export_entries : Text → List Entry → Counts → Disk → Result Counts × Disk
  export_entries dir [] n d = (ok n, d)
  export_entries dir (entry ∷ rest) n d =
      then_with (export_entries dir rest) (export_entry dir entry n d)

  abbrev pub in_directory :
      Text → List Entry → Counts → Result (Unit {0}) × Disk → Result Counts × Disk
  in_directory dir entries n (ok _, d) = export_entries dir entries n d
  in_directory dir entries n (err e, d) = (err (wrap "creating directory" e), d)

  abbrev pub listed : Text → Counts → Disk → Result (List Entry) → Result Counts × Disk
  listed dir n d (err e) = (err (wrap "reading embedded migrations" e), d)
  listed dir n d (ok entries) = in_directory dir entries n (make_all dir d)

  -- one round of the outer loop
  unfoldable pub export_source : Source → Counts → Disk → Result Counts × Disk
  export_source src n d = listed (tools.join flags.output_dir src.name) n d src.entries

  unfoldable pub export_sources : List Source → Counts → Disk → Result Counts × Disk
  export_sources [] n d = (ok n, d)
  export_sources (src ∷ rest) n d = then_with (export_sources rest) (export_source src n d)

  abbrev pub is_component : String → Bool
  is_component text = same flags.component (codes text)

  abbrev pub chosen : String → Result (List Entry) → List Source
  chosen text entries =
      if is_component "all" || is_component text
      then record { name = codes text; entries = entries } ∷ []
      else []

  unfoldable pub sources : List Source
  sources = chosen "core" tools.core ++ chosen "auth" tools.auth

  unfoldable pub export_with : Disk → Result Counts × Disk
  export_with d =
      if flags.force && flags.skip
      then (err (plain "cannot use both --force and --skip"), d)
      else if not (is_component "core" || (is_component "auth" || is_component "all"))
      then (err (plain "invalid --component value; must be core, auth, or all"), d)
      else export_sources sources none_yet d

abbrev parsed : Tools → Disk → Result ExportFlags → Result Counts × Disk
parsed tools d (err e) = (err e, d)
parsed tools d (ok flags) = export_with tools flags d

unfoldable pub run_migrations_export : Tools → List Text → Disk → Result Counts × Disk
run_migrations_export tools args d = parsed tools d (tools.parse args)
