-- ===== src/Cmd/Export/Again.antt =====
-- A second export behind one that succeeded.
use gotchi.Base.{
  ℕ, ◌+◌, ◌≡◌, ap, ◌∙◌, Bool, true, false, List, [], ◌∷◌, All, Text, if◌then◌else◌, arith,
}
use gotchi.Errors.{Error, Result, ok, err}
use gotchi.Cmd.Disk.{Disk, Node, file, directory, Outcome, read_file, write_file, make_all}
use gotchi.Cmd.Export.{
  ExportFlags, Entry, Source, Counts, Tools, one_unchanged, then_with, settle, export_content,
  export_entry, export_entries, export_source, export_sources, listed,
}
use gotchi.Cmd.Export.Kept.{At, Firm, write_file-At, make_all-At, file-Firm}
use gotchi.Cmd.Export.Written.{AllReadable, write_file-AllReadable, make_all-AllReadable, Done}

-- what a second run finds of an entry, and of a source
abbrev pub Exported : Tools → Text → Bool → Result Text → Disk → Type 0
Exported tools path true r d = Unit {0}
Exported tools path false (err e) d = ⊥
Exported tools path false (ok embedded) d = Done tools path embedded d

abbrev pub InPlace : Tools → Text → Disk → Entry → Type 0
InPlace tools dir d entry = Exported tools (tools.join dir entry.name) entry.is_dir entry.content d

abbrev pub Listed : Tools → Text → Result (List Entry) → Disk → Type 0
Listed tools dir (err e) d = ⊥
Listed tools dir (ok entries) d = At dir directory d × All (InPlace tools dir d) entries

abbrev pub add_unchanged : Counts → ℕ → Counts
add_unchanged n k = record n { unchanged = n.unchanged + k }

-- the entries that are files
abbrev pub files : List Entry → ℕ
files [] = 0
files (entry ∷ rest) = (if entry.is_dir then 0 else 1) + files rest

abbrev pub files_of : Result (List Entry) → ℕ
files_of (err e) = 0
files_of (ok entries) = files entries

abbrev pub all_files : List Source → ℕ
all_files [] = 0
all_files (src ∷ rest) = files_of src.entries + all_files rest

module _ (tools : Tools) (flags : ExportFlags) where
  settle_again :
      (path embedded : Text) (n : Counts) (d : Disk)
      → Done tools path embedded d
      → settle tools flags path embedded n d (read_file path d) ≡ (ok (one_unchanged n), d)
  unfolding settle read_file
  settle_again path embedded n d (c, at, agrees) = rw (at, agrees)

  content_again :
      (path : Text) (n : Counts) (d : Disk) (b : Bool) (r : Result Text)
      → Exported tools path b r d
      → (if b then (ok n, d) else export_content tools flags path n d r)
        ≡ (ok (add_unchanged n (if b then 0 else 1)), d)
  unfolding export_content
  content_again path n d true r x = ground arith
  content_again path n d false (err e) x = absurd x
  content_again path n d false (ok embedded) x = settle_again path embedded n d x

  entries_again :
      (dir : Text) (entries : List Entry) (n : Counts) (d : Disk)
      → All (InPlace tools dir d) entries
      → export_entries tools flags dir entries n d ≡ (ok (add_unchanged n (files entries)), d)
  unfolding export_entries export_entry
  entries_again dir [] n d x = ground arith
  entries_again dir (entry ∷ rest) n d (x, xs) =
      ap (then_with (export_entries tools flags dir rest))
        (content_again (tools.join dir entry.name) n d entry.is_dir entry.content x)
      ∙ entries_again dir rest (add_unchanged n (if entry.is_dir then 0 else 1)) d xs
      ∙ ground arith

  pub listed_again :
      (dir : Text) (n : Counts) (d : Disk) (r : Result (List Entry))
      → Listed tools dir r d
      → listed tools flags dir n d r ≡ (ok (add_unchanged n (files_of r)), d)
  unfolding make_all
  listed_again dir n d (err e) x = absurd x
  listed_again dir n d (ok entries) (made, x) = rw made (entries_again dir entries n d x)

  abbrev pub AllListed : List Source → Disk → Type 0
  AllListed srcs d =
      All (λ src. Listed tools (tools.join flags.output_dir src.name) src.entries d) srcs

  pub sources_again :
      (srcs : List Source) (n : Counts) (d : Disk)
      → AllListed srcs d
      → export_sources tools flags srcs n d ≡ (ok (add_unchanged n (all_files srcs)), d)
  unfolding export_sources export_source
  sources_again [] n d x = ground arith
  sources_again (src ∷ rest) n d (x, xs) =
      ap (then_with (export_sources tools flags rest))
        (listed_again (tools.join flags.output_dir src.name) n d src.entries x)
      ∙ sources_again rest (add_unchanged n (files_of src.entries)) d xs
      ∙ ground arith

-- What a write where nothing can be read, and a new directory, leave true.
pub record Lasting (P : Disk → Type 0) : Type 0 where
  pub writing :
      (path content : Text) (d : Disk) (e : Error)
      → read_file path d ≡ err e
      → P d
      → P (write_file path content d).1
  pub making : (path : Text) (d : Disk) → P d → P (make_all path d).1
  -- nor does it matter what will become of later calls
  pub weather : (d : Disk) (os : List Outcome) → P d → P (record d { outcomes = os })

pub Lasting-At : (p : Text) (k : Node) → Firm k → Lasting (At p k)
Lasting-At p k firm = record {
  writing = write_file-At p k firm;
  making = make_all-At p k;
  weather = λ d os h. h;
}

pub Lasting-AllReadable : Lasting AllReadable
Lasting-AllReadable = record {
  writing = write_file-AllReadable;
  making = make_all-AllReadable;
  weather = λ d os h. h;
}

pub Lasting-and : (P Q : Disk → Type 0) → Lasting P → Lasting Q → Lasting (λ d. P d × Q d)
Lasting-and P Q l m = record {
  writing =
      λ path content d e b (p, q). (l.writing path content d e b p, m.writing path content d e b q);
  making = λ path d (p, q). (l.making path d p, m.making path d q);
  weather = λ d os (p, q). (l.weather d os p, m.weather d os q);
}

pub Lasting-All :
    (P : Entry → Disk → Type 0) (entries : List Entry)
    → ((x : Entry) → Lasting (P x))
    → Lasting (λ d. All (λ x. P x d) entries)
Lasting-All P [] l = record {
  writing = λ path content d e b h. tt;
  making = λ path d h. tt;
  weather = λ d os h. tt;
}
Lasting-All P (x ∷ xs) l = Lasting-and (P x) (λ d. All (λ y. P y d) xs) (l x) (Lasting-All P xs l)

module _ (tools : Tools) where
  pub Lasting-Done : (path embedded : Text) → Lasting (Done tools path embedded)
  Lasting-Done path embedded = record {
    writing = λ p content d e b (c, at, same_sum).
        (c, write_file-At path (file true c) (file-Firm c) p content d e b at, same_sum);
    making = λ p d (c, at, same_sum). (c, make_all-At path (file true c) p d at, same_sum);
    weather = λ d os h. h;
  }

  pub Lasting-Exported :
      (path : Text) (b : Bool) (r : Result Text) → Lasting (Exported tools path b r)
  Lasting-Exported path true r = record {
    writing = λ p content d e b h. tt;
    making = λ p d h. tt;
    weather = λ d os h. tt;
  }
  Lasting-Exported path false (err f) = record {
    writing = λ p content d e b h. h;
    making = λ p d h. h;
    weather = λ d os h. h;
  }
  Lasting-Exported path false (ok embedded) = Lasting-Done path embedded

  pub Lasting-Listed : (dir : Text) (r : Result (List Entry)) → Lasting (Listed tools dir r)
  Lasting-Listed dir (err f) = record {
    writing = λ p content d e b h. h;
    making = λ p d h. h;
    weather = λ d os h. h;
  }
  Lasting-Listed dir (ok entries) =
      Lasting-and (At dir directory) (λ d. All (InPlace tools dir d) entries)
        (Lasting-At dir directory (λ c q. cc))
        (Lasting-All (λ x d. InPlace tools dir d x) entries
          (λ x. Lasting-Exported (tools.join dir x.name) x.is_dir x.content))
