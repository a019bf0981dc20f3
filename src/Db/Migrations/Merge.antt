-- ===== src/Db/Migrations/Merge.antt =====
-- mergeMigrationSources against its description: every file of every source, no name twice.
use mathlib.Core.Path.{subst}
use gotchi.Base.{
  ◌⊎◌, ap, ◌≡◌, refl, ◌∙◌, ◌↔◌, true, false, Bool-cases, inl, inr, none, List, [], ◌∷◌, ◌++◌,
  append-nil, append_assoc, String, Text,
}
use gotchi.Errors.{ok_bind, Result, ok, err, ◌>>=◌}
use gotchi.Db.Migrations.Files.{
  Distinct, lookup-append, Distinct-snoc, fresh_of_Distinct, added, adds,
}
use gotchi.Db.Migrations.{
  DirEntry, MigrationSource, Files, lookup, file_path, or_wrapped, merge_entries, merge_sources,
  merge_migration_sources,
}

-- the files of a source, directories left out
abbrev pub files_of : MigrationSource → List DirEntry → Result Files
files_of src [] = ok []
files_of src (e ∷ entries) = elim e.is_dir [
  | true ↦ files_of src entries
  | false ↦
      src.fs.read_file (file_path src.dir e.name)
      >>= (λ content. files_of src entries >>= (λ rest. ok ((e.name, content) ∷ rest)))
]

abbrev pub all_files : List MigrationSource → Result Files
all_files [] = ok []
all_files (src ∷ sources) = src.fs.read_dir src.dir >>= (λ entries.
    files_of src entries >>= (λ files. all_files sources >>= (λ rest. ok (files ++ rest))))

unwrapped {ℓ} :
    {A : Type ℓ} (text : String) (r : Result A) (a : A) → or_wrapped text r ≡ ok a → r ≡ ok a
unwrapped text (ok a) b e = e
unwrapped text (err x) b e = absurd (cc)

abbrev Collected : Result Files → Files → Files → Type 0
Collected source files merged =
    (new : Files) × (source ≡ ok new) × (merged ≡ files ++ new) × Distinct merged

-- one round of the inner loop that goes on: a directory is skipped, a file is read and added
abbrev Went : MigrationSource → DirEntry → List DirEntry → Files → Files → Type 0
Went src x entries files merged =
    ((x.is_dir ≡ true) × (merge_entries src entries files ≡ ok merged))
    ⊎ ((content : Text) × (x.is_dir ≡ false)
        × (src.fs.read_file (file_path src.dir x.name) ≡ ok content)
        × (lookup x.name files ≡ none)
        × (merge_entries src entries (files ++ ((x.name, content) ∷ [])) ≡ ok merged))

went :
    (src : MigrationSource) (x : DirEntry) (entries : List DirEntry) (files merged : Files)
    → merge_entries src (x ∷ entries) files ≡ ok merged
    → Went src x entries files merged
unfolding merge_entries
went src x entries files merged e = elim (Bool-cases x.is_dir) [
  | inl dir ↦ inl (dir, (rw dir at e))
  | inr file ↦
      let (content, read, e') = ok_bind _ _ merged (rw file at e) in
      let (files', put, rest) = ok_bind _ _ merged e' in
      let (fresh, same_files) = added files x.name content files' put in
      inr (content, file, unwrapped _ _ content read, fresh, rw same_files at rest)
]

entries-Collected :
    (src : MigrationSource) (entries : List DirEntry) (files merged : Files)
    → merge_entries src entries files ≡ ok merged
    → Distinct files
    → Collected (files_of src entries) files merged
entries-Collected src [] files merged e h =
    let same_files : files ≡ merged = unfold merge_entries in cc in
    ([], refl, cc (append-nil files), subst Distinct same_files h)
entries-Collected src (x ∷ entries) files merged e h = elim (went src x entries files merged e) [
  | inl (dir, rest) ↦ rw dir (entries-Collected src entries files merged rest h)
  | inr (content, file, read, fresh, rest) ↦
      let (new, collected, all, distinct) =
        entries-Collected src entries (files ++ ((x.name, content) ∷ [])) merged rest
          (Distinct-snoc files x.name content h fresh) in
      (
        (x.name, content) ∷ new,
        rw (file, read, collected) refl,
        cc (all, append_assoc files ((x.name, content) ∷ []) new),
        distinct,
      )
]

sources-Collected :
    (sources : List MigrationSource) (files merged : Files)
    → merge_sources sources files ≡ ok merged
    → Distinct files
    → Collected (all_files sources) files merged
unfolding merge_sources
sources-Collected [] files merged e h =
    let same_files : files ≡ merged = cc in
    ([], refl, cc (append-nil files), subst Distinct same_files h)
sources-Collected (src ∷ sources) files merged e h =
    let (entries, listed, e') =
      ok_bind (or_wrapped "listing migrations" (src.fs.read_dir src.dir))
        (λ entries. merge_entries src entries files >>= merge_sources sources) merged e in
    let (files', merged', rest) =
      ok_bind (merge_entries src entries files) (merge_sources sources) merged e' in
    let (new, collected, all, distinct) = entries-Collected src entries files files' merged' h in
    let (new', collected', all', distinct') =
      sources-Collected sources files' merged rest distinct in
    (
      new ++ new',
      rw (unwrapped _ _ entries listed, collected, collected') refl,
      cc (all, all', append_assoc files new new'),
      distinct',
    )

abbrev put_first : DirEntry → Text → Files → Result Files
put_first x content rest = ok ((x.name, content) ∷ rest)

entries-added :
    (src : MigrationSource) (entries : List DirEntry) (files new : Files)
    → files_of src entries ≡ ok new
    → Distinct (files ++ new)
    → merge_entries src entries files ≡ ok (files ++ new)
unfolding merge_entries
entries-added src [] files new e h =
    let none_new : new ≡ [] = cc in rw (none_new, append-nil files) refl
entries-added src (x ∷ entries) files new e h = elim (Bool-cases x.is_dir) [
  | inl dir ↦ rw dir (entries-added src entries files new (rw dir at e) h)
  | inr file ↦
      let (content, read, e') =
        ok_bind (src.fs.read_file (file_path src.dir x.name))
          (λ content. files_of src entries >>= put_first x content) new (rw file at e) in
      let (rest, collected, all) = ok_bind (files_of src entries) (put_first x content) new e' in
      let split : new ≡ (x.name, content) ∷ rest = cc in
      let distinct = subst (λ n. Distinct (files ++ n)) split h in
      let fresh = fresh_of_Distinct files x.name content rest distinct in
      let one = (x.name, content) ∷ [] in
      let step =
        entries-added src entries (files ++ one) rest collected
          (rw (append_assoc files one rest) distinct) in
      rw (file, read, adds files x.name content fresh, split)
        (step ∙ ap ok (append_assoc files one rest))
]

Distinct-left : (files new : Files) → Distinct (files ++ new) → Distinct files
Distinct-left [] new h = tt
Distinct-left ((n, c) ∷ files) new (h, hs) =
    (((lookup-append n files new).0 h).0, Distinct-left files new hs)

abbrev append_all : Files → Files → Result Files
append_all files rest = ok (files ++ rest)

sources-added :
    (sources : List MigrationSource) (files new : Files)
    → all_files sources ≡ ok new
    → Distinct (files ++ new)
    → merge_sources sources files ≡ ok (files ++ new)
unfolding merge_sources
sources-added [] files new e h =
    let none_new : new ≡ [] = cc in rw (none_new, append-nil files) refl
sources-added (src ∷ sources) files new e h =
    let (entries, listed, e') =
      ok_bind (src.fs.read_dir src.dir)
        (λ entries. files_of src entries >>= (λ files. all_files sources >>= append_all files)) new
        e in
    let (here', collected, e'') =
      ok_bind (files_of src entries) (λ files. all_files sources >>= append_all files) new e' in
    let (rest, others, all) = ok_bind (all_files sources) (append_all here') new e'' in
    let split : new ≡ here' ++ rest = cc in
    let assoc = append_assoc files here' rest in
    let distinct : Distinct ((files ++ here') ++ rest) =
      rw assoc (subst (λ n. Distinct (files ++ n)) split h) in
    let first =
      entries-added src entries files here' collected
        (Distinct-left (files ++ here') rest distinct) in
    let then' = sources-added sources (files ++ here') rest others distinct in
    rw (listed, first, split) (then' ∙ ap ok assoc)

-- mergeMigrationSources returns exactly the files of all sources, read from their own paths, without
-- the directories and in the order of the sources, when every directory and file can be read and no
-- name comes twice; and it returns an error in every other case.
pub merge_migration_sources-all_files :
    (sources : List MigrationSource) (files : Files)
    → (merge_migration_sources sources ≡ ok files)
      ↔ ((all_files sources ≡ ok files) × Distinct files)
unfolding merge_migration_sources
merge_migration_sources-all_files sources files = (
  (λ merged.
      let (new, collected, all, distinct) = sources-Collected sources [] files merged tt in
      (cc (collected, all), distinct)),
  (λ (collected, distinct). sources-added sources [] files collected distinct),
)
