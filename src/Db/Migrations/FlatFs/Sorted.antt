-- ===== src/Db/Migrations/FlatFs/Sorted.antt =====
-- The order of the names in openRoot.
use mathlib.Core.List.{Perm}
use mathlib.Core.List.Perm
use gotchi.Base.{
  ap, ◌≡◌, refl, true, false, Bool-cases, inl, inr, some, List, [], ◌∷◌, map, length, Text, arith,
  All, pos, ◌+◌, ◌<◌, ◌^◌, suc, ℕ,
}
use gotchi.Errors.{ok}
use gotchi.Db.Migrations.{Files, lookup, MigrationSource, merge_migration_sources}
use gotchi.Db.Migrations.Merge.{all_files, merge_migration_sources-all_files}
use gotchi.Db.Migrations.FlatFs.{
  FlatDirEntry, less, insert_name, sort_strings, names_of, entries_of, content_or_none, open_root,
}
use gotchi.Db.Migrations.FlatFs.Pages.{read_all, read_all-rest}

-- no name before one that is less
abbrev pub IsOrdered : List Text → Type 0
IsOrdered [] = Unit {0}
IsOrdered (a ∷ []) = Unit {0}
IsOrdered (a ∷ (b ∷ names)) = (less b a ≡ false) × IsOrdered (b ∷ names)

pub less_asymm : (s t : Text) → less s t ≡ true → less t s ≡ false
unfolding less
less_asymm s [] h = absurd (cc)
less_asymm [] (d ∷ t) h = refl
less_asymm (c ∷ s) (d ∷ t) h = ground (arith, less_asymm s t)

insert_name-IsOrdered :
    (n : Text) (names : List Text) → IsOrdered names → IsOrdered (insert_name n names)
unfolding insert_name
insert_name-IsOrdered n [] h = tt
insert_name-IsOrdered n (m ∷ []) h = elim (Bool-cases (less n m)) [
  | inl before ↦ rw before (less_asymm n m before, tt)
  | inr after ↦ rw after (after, tt)
]
insert_name-IsOrdered n (m ∷ (k ∷ names)) (h, hs) =
    let ih = insert_name-IsOrdered n (k ∷ names) hs in
    elim (Bool-cases (less n m)) [
      | inl before ↦ rw before (less_asymm n m before, (h, hs))
      | inr after ↦ elim (Bool-cases (less n k)) [
        | inl between ↦ rw (after, between) (after, (less_asymm n k between, hs))
        | inr later ↦ rw (after, later) (h, (rw later at ih))
      ]
    ]

pub sort_strings-IsOrdered : (names : List Text) → IsOrdered (sort_strings names)
unfolding sort_strings
sort_strings-IsOrdered [] = tt
sort_strings-IsOrdered (n ∷ names) =
    insert_name-IsOrdered n (sort_strings names) (sort_strings-IsOrdered names)

insert_name-perm : (n : Text) (names : List Text) → Perm (insert_name n names) (n ∷ names)
unfolding insert_name
insert_name-perm n [] = Perm.rfl
insert_name-perm n (m ∷ names) = elim (Bool-cases (less n m)) [
  | inl before ↦ rw before Perm.rfl
  | inr after ↦ rw after (Perm.trans (Perm.cons m (insert_name-perm n names)) (Perm.swap n m names))
]

pub sort_strings-perm : (names : List Text) → Perm (sort_strings names) names
unfolding sort_strings
sort_strings-perm [] = Perm.rfl
sort_strings-perm (n ∷ names) =
    Perm.trans (insert_name-perm n (sort_strings names)) (Perm.cons n (sort_strings-perm names))

abbrev pub name_of : FlatDirEntry → Text
name_of e = e.name

entries_of-names :
    (files : Files) (names : List Text) → map name_of (entries_of files names) ≡ names
unfolding entries_of
entries_of-names files [] = refl
entries_of-names files (n ∷ names) = ap (◌∷◌ n) (entries_of-names files names)

-- the size of an entry is that of the file behind its name
abbrev pub IsSized : Files → FlatDirEntry → Type 0
IsSized files e = e.size ≡ length (content_or_none (lookup e.name files))

entries_of-IsSized :
    (files : Files) (names : List Text) → All (IsSized files) (entries_of files names)
unfolding entries_of
entries_of-IsSized files [] = tt
entries_of-IsSized files (n ∷ names) = (refl, entries_of-IsSized files names)

-- Where the sources merge, a caller that reads the root directory in pages of any number of entries
-- above zero gets the names of all files of all sources, each as often as it stands there, in the
-- order of their bytes, whatever source each is from, and every entry has the size of its file;
-- the number of files and the page fit into an int64 together.
pub merged_root-IsOrdered :
    (sources : List MigrationSource) (files : Files) (k : ℕ)
    → merge_migration_sources sources ≡ ok files
    → length (open_root files).entries + suc k < 2 ^ 63
    → (entries : List FlatDirEntry) × (collected : Files) × (all_files sources ≡ ok collected)
      × (read_all (pos (suc k)) (suc (length (open_root files).entries)) (open_root files)
          ≡ some entries)
      × Perm (map name_of entries) (names_of collected)
      × IsOrdered (map name_of entries)
      × All (IsSized files) entries
unfolding open_root
merged_root-IsOrdered sources files k merged fits =
    let names = sort_strings (names_of files) in
    let all = ((merge_migration_sources-all_files sources files).0 merged).0 in
    let e = entries_of-names files names in
    (
      (open_root files).entries,
      files,
      all,
      read_all-rest k (suc (length (open_root files).entries)) (open_root files) (omega arith) fits
          (omega arith),
      rw e (sort_strings-perm (names_of files)),
      rw e (sort_strings-IsOrdered (names_of files)),
      entries_of-IsSized files names,
    )
