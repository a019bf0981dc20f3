-- ===== src/Cmd/Export/Written.antt =====
-- What an export that succeeds has brought about.
use mathlib.Core.Path.{subst}
use gotchi.Base.{
  ℕ, ◌+◌, ◌≡◌, refl, sym, Bool, true, false, Bool-cases, inl, inr, Option, none, some, Text, same,
  same_self, arith,
}
use gotchi.Errors.{Error, Result, ok, err}
use gotchi.Cmd.Disk.{
  Disk, Node, file, directory, Outcome, works, refused, stops, content_of, readable, put, outcome,
  write_with, write_at, make_with, make_at, read_file, write_file, make_all,
}
use gotchi.Cmd.Export.{ExportFlags, Counts, Tools, one_copied, one_unchanged, after_write, settle}
use gotchi.Cmd.Export.Kept.{At}

-- every file on the disk can be read
abbrev pub AllReadable : Disk → Type 0
AllReadable d = (p : Text) → readable (d.node p) ≡ true

abbrev pub total : Counts → ℕ
total n = n.copied + n.skipped + n.unchanged

put-AllReadable :
    (path : Text) (k : Node) (d : Disk)
    → readable (some k) ≡ true
    → AllReadable d
    → AllReadable (put path k d)
put-AllReadable path k d fine h p = elim (Bool-cases (same p path)) [
  | inl here ↦ rw here fine
  | inr other ↦ rw other (h p)
]

write_with-AllReadable :
    (path : Text) (r : Bool) (content : Text) (d : Disk) (o : Outcome)
    → r ≡ true
    → AllReadable d
    → AllReadable (write_with path r content d o).1
write_with-AllReadable path r content d works fine h =
    put-AllReadable path (file r content) d fine h
write_with-AllReadable path r content d refused fine h = h
write_with-AllReadable path r content d (stops part) fine h =
    put-AllReadable path (file r part) d fine h

pub write_at-AllReadable :
    (path content : Text) (d : Disk) (o : Option Node)
    → readable o ≡ true
    → AllReadable d
    → AllReadable (write_at path content d o).1
write_at-AllReadable path content d (some directory) fine h = h
write_at-AllReadable path content d (some (file r old)) fine h =
    write_with-AllReadable path r content d (outcome d.outcomes) fine h
write_at-AllReadable path content d none fine h =
    write_with-AllReadable path true content d (outcome d.outcomes) refl h

make_with-AllReadable :
    (path : Text) (d : Disk) (o : Outcome) → AllReadable d → AllReadable (make_with path d o).1
make_with-AllReadable path d works h = put-AllReadable path directory d refl h
make_with-AllReadable path d refused h = h
make_with-AllReadable path d (stops part) h = h

make_at-AllReadable :
    (path : Text) (d : Disk) (o : Option Node) → AllReadable d → AllReadable (make_at path d o).1
make_at-AllReadable path d (some directory) h = h
make_at-AllReadable path d (some (file r old)) h = h
make_at-AllReadable path d none h = make_with-AllReadable path d (outcome d.outcomes) h

pub write_file-AllReadable :
    (path content : Text) (d : Disk) (e : Error)
    → read_file path d ≡ err e
    → AllReadable d
    → AllReadable (write_file path content d).1
unfolding write_file
write_file-AllReadable path content d e broken h =
    write_at-AllReadable path content d (d.node path) (h path) h

pub make_all-AllReadable :
    (path : Text) (d : Disk) → AllReadable d → AllReadable (make_all path d).1
unfolding make_all
make_all-AllReadable path d h = make_at-AllReadable path d (d.node path) h

-- A file is at the target, can be read, and has the checksum of the embedded one.
abbrev pub Done : Tools → Text → Text → Disk → Type 0
Done tools path embedded d =
    (c : Text) × At path (file true c) d × (same (tools.sum256 c) (tools.sum256 embedded) ≡ true)

content_of-ok : (o : Option Node) (c : Text) → content_of o ≡ ok c → o ≡ some (file true c)
content_of-ok none c h = absurd (cc)
content_of-ok (some (file true b)) c h = cc
content_of-ok (some (file false b)) c h = absurd (cc)
content_of-ok (some directory) c h = absurd (cc)

module _ (tools : Tools) (path embedded : Text) (n n' : Counts) (d d' : Disk) where
  write_with-Done :
      (o : Outcome)
      → after_write n (write_with path true embedded d o) ≡ (ok n', d')
      → Done tools path embedded d' × (total n' ≡ total n + 1)
  write_with-Done works e =
      let same_disk : put path (file true embedded) d ≡ d' = cc in
      let counted : one_copied n ≡ n' = cc in
      (
        subst (Done tools path embedded) same_disk
            (embedded, rw (same_self path) refl, same_self (tools.sum256 embedded)),
        rw (sym counted) (omega arith),
      )
  write_with-Done refused e = absurd (cc)
  write_with-Done (stops part) e = absurd (cc)

  write_at-Done :
      (o : Option Node) (f : Error)
      → readable o ≡ true
      → content_of o ≡ err f
      → after_write n (write_at path embedded d o) ≡ (ok n', d')
      → Done tools path embedded d' × (total n' ≡ total n + 1)
  write_at-Done (some directory) f fine broken e = absurd (cc)
  write_at-Done (some (file true old)) f fine broken e = absurd (cc)
  write_at-Done (some (file false old)) f fine broken e = absurd (cc)
  write_at-Done none f fine broken e = write_with-Done (outcome d.outcomes) e

module _ (tools : Tools) (flags : ExportFlags) (careful : flags.force ≡ false)
    (strict : flags.skip ≡ false) (path embedded : Text) (n n' : Counts) (d d' : Disk) where
  read-Done :
      (r : Result Text)
      → AllReadable d
      → read_file path d ≡ r
      → settle tools flags path embedded n d r ≡ (ok n', d')
      → Done tools path embedded d' × (total n' ≡ total n + 1)
  unfolding settle read_file write_file
  read-Done (err f) readable at e =
      write_at-Done tools path embedded n n' d d' (d.node path) f (readable path) at e
  read-Done (ok existing) readable at e =
      let there = content_of-ok (d.node path) existing at in
      elim (Bool-cases (same (tools.sum256 existing) (tools.sum256 embedded))) [
        | inl agrees ↦
            let e' = rw agrees at e in
            let same_disk : d ≡ d' = cc in
            let counted : one_unchanged n ≡ n' = cc in
            (
              subst (Done tools path embedded) same_disk (existing, there, agrees),
              rw (sym counted) (omega arith),
            )
        | inr differs ↦ absurd (let e' = rw (differs, strict, careful) at e in cc)
      ]

  pub settle-Done :
      AllReadable d
      → settle tools flags path embedded n d (read_file path d) ≡ (ok n', d')
      → Done tools path embedded d' × (total n' ≡ total n + 1)
  settle-Done readable e = read-Done (read_file path d) readable refl e
