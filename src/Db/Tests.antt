-- ===== src/Db/Tests.antt =====
-- Two sources and a small driver, and the theorems at inputs that meet their hypotheses.
use gotchi.Base.{
  suc, ◌+◌, ◌<◌, ◌^◌, ◌≡◌, refl, arith, true, false, none, some, List, [], ◌∷◌, pos, map, length,
  All, Text, codes, same, if◌then◌else◌,
}
use mathlib.Core.List.{Perm}
use gotchi.Errors.{plain, ok, err}
use gotchi.Db.Migrations.{
  MigrationSource, Files, lookup, add_file, file_path, merge_entries, merge_sources,
  merge_migration_sources,
}
use gotchi.Db.Migrations.Merge.{all_files}
use gotchi.Db.Migrations.FlatFs.{
  FlatDirEntry, FlatDir, names_of, open_root, entries_of, sort_strings, insert_name, less,
}
use gotchi.Db.Migrations.FlatFs.Pages.{read_all, read_all-rest}
use gotchi.Db.Migrations.FlatFs.Sorted.{name_of, IsOrdered, IsSized, merged_root-IsOrdered}
use gotchi.Db.Fixture.{driver, db_config}
use gotchi.Db.Manager.{Manager, connect}

-- a directory "." with one file, and one other directory
abbrev one_file : Text → Text → MigrationSource
one_file name content = record {
  fs = record {
    read_dir = λ d. ok (
        record { name = codes "old"; is_dir = true }
        ∷ (record { name = name; is_dir = false } ∷ []));
    read_file = λ path. if same path name then ok content else err (plain "not found");
  };
  dir = codes ".";
}

abbrev sources : List MigrationSource
sources = one_file (codes "2.sql") (codes "b") ∷ (one_file (codes "1.sql") (codes "a;") ∷ [])

abbrev files : Files
files = (codes "2.sql", codes "b") ∷ ((codes "1.sql", codes "a;") ∷ [])

merged : merge_migration_sources sources ≡ ok files
unfolding merge_migration_sources merge_sources merge_entries add_file file_path lookup same
merged = refl

listed :
    (open_root files).entries
    ≡ record { name = codes "1.sql"; size = 2 } ∷ (record { name = codes "2.sql"; size = 1 } ∷ [])
unfolding open_root sort_strings insert_name less entries_of lookup same
listed = refl

small : length (open_root files).entries + 1 < 2 ^ 63
small = rw listed (omega arith)

merged_root-IsOrdered_example :
    (entries : List FlatDirEntry) × (collected : Files) × (all_files sources ≡ ok collected)
    × (read_all (pos 1) (suc (length (open_root files).entries)) (open_root files) ≡ some entries)
    × Perm (map name_of entries) (names_of collected)
    × IsOrdered (map name_of entries)
    × All (IsSized files) entries
merged_root-IsOrdered_example = merged_root-IsOrdered sources files 0 merged small

abbrev two_left : FlatDir
two_left = record {
  entries =
      record { name = codes "a"; size = 0 }
      ∷ (record { name = codes "b"; size = 1 } ∷ (record { name = codes "c"; size = 2 } ∷ []));
  position = 1;
}

read_all-rest_example :
    read_all (pos 1) 3 two_left
    ≡ some (record { name = codes "b"; size = 1 } ∷ (record { name = codes "c"; size = 2 } ∷ []))
read_all-rest_example = read_all-rest 0 3 two_left (omega arith) (omega arith) (omega arith)

abbrev manager : Manager driver
manager = record { cfg = db_config; pool = none; migration_files = sources }

dialled : (connect driver manager []).1.pool ≡ some 1
unfolding connect
dialled = refl
