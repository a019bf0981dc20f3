-- ===== src/Db/Migrations.antt =====
-- Migration sources of db/db.go: how they are merged into one directory, as AddMigrationSource takes them.
pub mod Files
pub mod Merge
pub mod FlatFs
use gotchi.Base.{
  Bool, true, false, ◌&&◌, Option, none, some, List, [], ◌∷◌, ◌++◌, String, Text, codes, same,
  is_empty, not, find?, if◌then◌else◌,
}
use gotchi.Errors.{Error, plain, wrap, Result, ok, err, ◌>>=◌}

-- fs.DirEntry, by Name and IsDir
pub record DirEntry : Type 0 where
  pub name : Text
  pub is_dir : Bool

-- fs.FS as fs.ReadDir and fs.ReadFile read it
pub record Fs : Type 0 where
  pub read_dir : Text → Result (List DirEntry)
  pub read_file : Text → Result Text

pub record MigrationSource : Type 0 where
  pub fs : Fs
  pub dir : Text

-- `map[string][]byte`, in the order of insertion
abbrev pub Files : Type 0
Files = List (Text × Text)

unfoldable pub lookup : Text → Files → Option Text
lookup name [] = none
lookup name ((n, content) ∷ files) = if same name n then some content else lookup name files

-- the file's path in its source
unfoldable pub file_path : Text → Text → Text
file_path dir name =
    if not (same dir (codes ".")) && not (is_empty dir) then dir ++ (b'/' ∷ name) else name

unfoldable pub add_file : Files → Text → Text → Result Files
unfolding lookup
add_file files name content = elim (lookup name files) [
  | none ↦ ok (files ++ ((name, content) ∷ []))
  | some old ↦ err (plain "duplicate migration filename")
]

abbrev or_wrapped {ℓ} : {A : Type ℓ} → String → Result A → Result A
or_wrapped text (ok a) = ok a
or_wrapped text (err e) = err (wrap text e)

-- the inner loop
unfoldable pub merge_entries : MigrationSource → List DirEntry → Files → Result Files
unfolding add_file file_path
merge_entries src [] files = ok files
merge_entries src (e ∷ entries) files = elim e.is_dir [
  | true ↦ merge_entries src entries files
  | false ↦
      or_wrapped "reading migration" (src.fs.read_file (file_path src.dir e.name))
      >>= (λ content. add_file files e.name content >>= merge_entries src entries)
]

-- the outer loop
unfoldable pub merge_sources : List MigrationSource → Files → Result Files
unfolding merge_entries
merge_sources [] files = ok files
merge_sources (src ∷ sources) files =
    or_wrapped "listing migrations" (src.fs.read_dir src.dir)
    >>= (λ entries. merge_entries src entries files >>= merge_sources sources)

unfoldable pub merge_migration_sources : List MigrationSource → Result Files
unfolding merge_sources
merge_migration_sources sources = merge_sources sources []

-- AddMigrationSource's source
unfoldable pub with_default_dir : MigrationSource → MigrationSource
with_default_dir source = if is_empty source.dir then record source { dir = codes "." } else source
