-- ===== src/Cmd/Disk.antt =====
-- What the command line uses of the packages os and path/filepath: a disk, and the calls that may
-- fail for a reason of their own. `filepath.Join` is `join`.
use gotchi.Base.{Bool, true, false, Option, none, some, List, [], ◌∷◌, Text, same, if◌then◌else◌}
use gotchi.Errors.{Result, ok, err, plain}

-- A file may be there and not readable for this user.
pub data Node : Type 0 where
  file : Bool → Text → Node
  directory : Node

-- What becomes of one call that writes: it works, it changes nothing, or it stops on the way and
-- leaves what it has written so far.
pub data Outcome : Type 0 where
  works refused : Outcome
  stops : Text → Outcome

pub record Disk : Type 0 where
  pub node : Text → Option Node
  -- of the calls to come; past its end each works
  pub outcomes : List Outcome

abbrev pub outcome : List Outcome → Outcome
outcome [] = works
outcome (o ∷ _) = o

abbrev pub later : List Outcome → List Outcome
later [] = []
later (_ ∷ os) = os

abbrev pub put : Text → Node → Disk → Disk
put path n d = record {
  node = λ p. if same p path then some n else d.node p;
  outcomes = later d.outcomes;
}

abbrev pub spend : Disk → Disk
spend d = record d { outcomes = later d.outcomes }

abbrev pub content_of : Option Node → Result Text
content_of none = err (plain "no such file or directory")
content_of (some (file true content)) = ok content
content_of (some (file false content)) = err (plain "permission denied")
content_of (some directory) = err (plain "is a directory")

-- os.ReadFile
unfoldable pub read_file : Text → Disk → Result Text
read_file path d = content_of (d.node path)

-- the mode is that of the file that was there
abbrev pub readable : Option Node → Bool
readable none = true
readable (some (file r content)) = r
readable (some directory) = true

abbrev pub write_with : Text → Bool → Text → Disk → Outcome → Result (Unit {0}) × Disk
write_with path r content d works = (ok tt, put path (file r content) d)
write_with path r content d refused = (err (plain "permission denied"), spend d)
write_with path r content d (stops part) = (err (plain "no space left"), put path (file r part) d)

abbrev pub write_at : Text → Text → Disk → Option Node → Result (Unit {0}) × Disk
write_at path content d (some directory) = (err (plain "is a directory"), d)
write_at path content d (some (file r old)) = write_with path r content d (outcome d.outcomes)
write_at path content d none = write_with path true content d (outcome d.outcomes)

-- os.WriteFile, which creates or truncates
unfoldable pub write_file : Text → Text → Disk → Result (Unit {0}) × Disk
write_file path content d = write_at path content d (d.node path)

abbrev pub make_with : Text → Disk → Outcome → Result (Unit {0}) × Disk
make_with path d works = (ok tt, put path directory d)
make_with path d refused = (err (plain "permission denied"), spend d)
make_with path d (stops part) = (err (plain "no space left"), spend d)

abbrev pub make_at : Text → Disk → Option Node → Result (Unit {0}) × Disk
make_at path d (some directory) = (ok tt, d)
make_at path d (some (file r old)) = (err (plain "not a directory"), d)
make_at path d none = make_with path d (outcome d.outcomes)

-- os.MkdirAll; the parents, which no code reads, are left out
unfoldable pub make_all : Text → Disk → Result (Unit {0}) × Disk
make_all path d = make_at path d (d.node path)
