-- ===== src/Db/Migrations/FlatFs.antt =====
-- flatFS, flatFile and flatDir of db/db.go: the merged files as one directory.
pub mod Pages
pub mod Sorted
use Prim.Native.Nat.{ℕ, suc, zero, ◌+◌, ◌-◌, ◌%◌, ◌^◌}
use gotchi.Base.{
  ltb, leb, Bool, true, false, Option, none, some, ℤ, pos, negsuc, List, [], ◌∷◌, length, map, Text,
  codes, same, if◌then◌else◌,
}
use gotchi.Db.Migrations.{Files, lookup}

-- flatDirEntry, and flatFileInfo with the same fields
pub record FlatDirEntry : Type 0 where
  pub name : Text
  pub size : ℕ

pub record FlatDir : Type 0 where
  pub entries : List FlatDirEntry
  pub position : ℕ

-- flatFile, by what Stat tells and what its reader reads
pub record FlatFile : Type 0 where
  pub name : Text
  pub size : ℕ
  pub content : Text

-- fs.File, or the error of Open
pub data Opened : Type 0 where
  dir : FlatDir → Opened
  file : FlatFile → Opened
  not_exist : Text → Opened

-- a < b on strings, bytewise
unfoldable pub less : Text → Text → Bool
less s [] = false
less [] (d ∷ t) = true
less (c ∷ s) (d ∷ t) = if ltb c d then true else (if ltb d c then false else less s t)

unfoldable pub insert_name : Text → List Text → List Text
unfolding less
insert_name n [] = n ∷ []
insert_name n (m ∷ names) = if less n m then n ∷ (m ∷ names) else m ∷ insert_name n names

-- sort.Strings
unfoldable pub sort_strings : List Text → List Text
unfolding insert_name
sort_strings [] = []
sort_strings (n ∷ names) = insert_name n (sort_strings names)

abbrev pub names_of : Files → List Text
names_of [] = []
names_of ((n, content) ∷ files) = n ∷ names_of files

abbrev pub content_or_none : Option Text → Text
content_or_none none = []
content_or_none (some content) = content

-- `flatDirEntry{name: n, size: int64(len(f.files[n]))}`
unfoldable pub entries_of : Files → List Text → List FlatDirEntry
unfolding lookup
entries_of files [] = []
entries_of files (n ∷ names) =
    record { name = n; size = length (content_or_none (lookup n files)) } ∷ entries_of files names

-- The files as the file system shows them: each name once in their order, with what opening it gives.
unfoldable pub flat_files : Files → Files
unfolding sort_strings
flat_files files = map (λ n. (n, content_or_none (lookup n files))) (sort_strings (names_of files))

unfoldable pub open_root : Files → FlatDir
unfolding sort_strings entries_of
open_root files = record {
  entries = entries_of files (sort_strings (names_of files));
  position = 0;
}

abbrev opened_file : Text → Option Text → Opened
opened_file name none = not_exist name
opened_file name (some content) =
    file (record { name = name; size = length content; content = content })

unfoldable pub open_name : Files → Text → Opened
unfolding open_root lookup
open_name files name =
    if same name (codes ".") then dir (open_root files) else opened_file name (lookup name files)

-- a + b on the 64-bit int of Go, for two numbers that are not negative
unfoldable pub add_int : ℕ → ℕ → ℤ
add_int a b =
    let sum = (a + b) % 2 ^ 64 in if ltb sum (2 ^ 63) then pos sum else negsuc (2 ^ 64 - sum - 1)

-- what ReadDir returns: the entries, io.EOF, or the run-time error of a slice out of range
pub data Page : Type 0 where
  page : List FlatDirEntry → Page
  eof : Page
  panics : Page

abbrev pub drop {ℓ} : {A : Type ℓ} → ℕ → List A → List A
drop zero xs = xs
drop (suc n) [] = []
drop (suc n) (x ∷ xs) = drop n xs

abbrev pub take {ℓ} : {A : Type ℓ} → ℕ → List A → List A
take zero xs = []
take (suc n) [] = []
take (suc n) (x ∷ xs) = x ∷ take n xs

-- `end := d.pos + n`, cut to the length; the slice d.entries[d.pos:end] and the new position
abbrev pub slice_to : FlatDir → ℤ → Page × FlatDir
slice_to d (negsuc k) = (panics, d)
slice_to d (pos end) =
    let cut = if ltb (length d.entries) end then length d.entries else end in
    if ltb cut d.position
    then (panics, d)
    else (page (take (cut - d.position) (drop d.position d.entries)), record d { position = cut })

abbrev pub read_page : FlatDir → ℤ → Page × FlatDir
unfolding add_int
read_page d (negsuc k) =
    (page (drop d.position d.entries), record d { position = length d.entries })
read_page d (pos zero) =
    (page (drop d.position d.entries), record d { position = length d.entries })
read_page d (pos (suc k)) = slice_to d (add_int d.position (suc k))

abbrev pub at_end : ℤ → Page
at_end (negsuc k) = page []
at_end (pos zero) = page []
at_end (pos (suc k)) = eof

-- flatDir.ReadDir: what it returns, and the directory with its new position
unfoldable pub read_dir : FlatDir → ℤ → Page × FlatDir
unfolding read_page
read_dir d n = if leb (length d.entries) d.position then (at_end n, d) else read_page d n
