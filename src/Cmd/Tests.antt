-- ===== src/Cmd/Tests.antt =====
-- The command line on a small disk.
use mathlib.Core.List.{append_cancel_left}
use gotchi.Base.{
  Bool-cases, inl, inr, ◌≡◌, refl, true, false, none, some, List, [], ◌∷◌, ◌++◌, Text, codes, same,
  is_empty, if◌then◌else◌,
}
use gotchi.Errors.{ok, err, plain}
use gotchi.Strings.{has_prefix, trim_prefix, trim_space, trim_left}
use gotchi.Cmd.Disk.{Disk, file, read_file, write_file, make_all}
use gotchi.Cmd.Export.{
  ExportFlags, Entry, Tools, settle, export_content, export_entry, export_entries, export_source,
  export_sources, sources, export_with,
}
use gotchi.Cmd.Export.Kept.{export_keeps_files}
use gotchi.Cmd.Export.Written.{AllReadable}
use gotchi.Cmd.Export.Twice.{export_again}
use gotchi.Cmd.Scaffold.{generate, all_files, write_files, write_one}
use gotchi.Cmd.Regression.{quote_identifier, quote_rest}
use gotchi.Cmd.Arguments.{
  InitArgs, Paths, init_round, init_loop, at_first, run_init, init_with, write_app,
}
use gotchi.Cmd.Arguments.Settings.{Setting, written, effects, init_loop-written}
use gotchi.Cmd.Arguments.Created.{Distinguishes, Created, run_init-Created}

abbrev slash : Text → Text → Text
slash dir name = dir ++ (codes "/" ++ name)

abbrev first_migration : Entry
first_migration = record { name = codes "1.sql"; is_dir = false; content = ok (codes "CREATE") }

abbrev tools : Tools
tools = record {
  sum256 = λ t. t;
  join = slash;
  parse = λ args. err (plain "flag provided but not defined");
  core = ok (first_migration ∷ []);
  auth = ok [];
}

abbrev plain_flags : ExportFlags
plain_flags = record {
  output_dir = codes "m";
  force = false;
  skip = false;
  component = codes "all";
}

-- one file, which has nothing to do with the export
abbrev notes : Disk
notes = record {
  node = λ p. if same p (codes "notes") then some (file true (codes "hello")) else none;
  outcomes = [];
}

-- a file where the export wants to write, with other content
abbrev edited : Disk
edited = record {
  node = λ p. if same p (codes "m/core/1.sql") then some (file true (codes "mine")) else none;
  outcomes = [];
}

export_keeps_files_example :
    (export_with tools plain_flags edited).1.node (codes "m/core/1.sql")
    ≡ some (file true (codes "mine"))
unfolding same
export_keeps_files_example =
    export_keeps_files (codes "m/core/1.sql") (codes "mine") tools plain_flags edited refl refl

notes-AllReadable : AllReadable notes
notes-AllReadable p = elim (Bool-cases (same p (codes "notes"))) [
  | inl here ↦ rw here refl
  | inr other ↦ rw other refl
]

export_again_example :
    export_with tools plain_flags (record (export_with tools plain_flags notes).1 { outcomes = [] })
    ≡ (
      ok (record { copied = 0; skipped = 0; unchanged = 1 }),
      record (export_with tools plain_flags notes).1 { outcomes = [] },
    )
unfolding same export_with sources export_sources export_source export_entries export_entry
    export_content settle make_all read_file write_file
export_again_example =
    export_again tools plain_flags refl refl notes (export_with tools plain_flags notes).1
      (record { copied = 1; skipped = 0; unchanged = 0 }) [] notes-AllReadable refl

abbrev settings : List Setting
settings =
    Setting.names (codes "shop")
    ∷ Setting.module_next (codes "x.org/shop")
    ∷ Setting.output_is (codes "apps")
    ∷ []

init_loop-written_example : init_loop (written settings) at_first ≡ effects settings at_first
unfolding has_prefix
init_loop-written_example = init_loop-written settings at_first (refl, (tt, (tt, tt)))

abbrev paths : Paths
paths = record {
  join = slash;
  dir = λ p. codes "apps";
  unicode_trim = λ t. t;
  unicode_lower = λ t. t;
}

slash-Distinguishes : Distinguishes slash
slash-Distinguishes root p q cp cq e =
    append_cancel_left (codes "/") p q (append_cancel_left root (codes "/" ++ p) (codes "/" ++ q) e)

abbrev new_app : List Text
new_app = codes "shop" ∷ codes "--output=apps" ∷ []

run_init-Created_example :
    (a : InitArgs) × (init_loop new_app at_first ≡ ok a)
    × (is_empty a.app_name ≡ false)
    × Created paths slash-Distinguishes notes (run_init paths new_app notes).1 notes-AllReadable a
unfolding same has_prefix trim_prefix trim_space trim_left init_round init_loop run_init init_with
    write_app generate write_files write_one make_all write_file read_file all_files
run_init-Created_example =
    run_init-Created paths slash-Distinguishes notes (run_init paths new_app notes).1
      notes-AllReadable new_app refl

-- a name that tries to end its statement
abbrev hostile : Text
hostile = codes "a\"; DROP TABLE users; --"

hostile_quoted : quote_identifier hostile ≡ codes "\"a\"\"; DROP TABLE users; --\""
unfolding quote_identifier quote_rest
hostile_quoted = refl
