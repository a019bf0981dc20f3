-- ===== src/Cmd/Export/Kept.antt =====
-- Without --force an export changes no file that can be read.
use gotchi.Base.{
  ◌≢◌, ◌≡◌, refl, sym, ap, ◌∙◌, Bool, true, false, Bool-cases, inl, inr, Option, none, some, Text,
  same, same_iff,
}
use gotchi.Errors.{Error, err}
use gotchi.Cmd.Disk.{
  Disk, Node, file, directory, Outcome, works, refused, stops, content_of, outcome, write_with,
  write_at, make_with, make_at, read_file, write_file, make_all,
}
use gotchi.Cmd.Export.{ExportFlags, Tools, export_with}
use gotchi.Cmd.Export.Keeps.{export_with-Keeps}

abbrev pub At : Text → Node → Disk → Type 0
At p k d = d.node p ≡ some k

-- no file that cannot be read
abbrev pub Firm : Node → Type 0
Firm k = (c : Text) → k ≢ file false c

module _ (p : Text) (k : Node) where
  elsewhere :
      (path : Text) (d : Disk) (o : Option Node)
      → d.node path ≡ o
      → o ≢ some k
      → At p k d
      → same p path ≡ false
  elsewhere path d o at differs h = elim (Bool-cases (same p path)) [
    | inr other ↦ other
    | inl here ↦
        let e = (same_iff p path).0 here in absurd (differs (sym at ∙ ap d.node (sym e) ∙ h))
  ]

  pub write_with-At :
      (path : Text) (r : Bool) (content : Text) (d : Disk) (o : Outcome)
      → same p path ≡ false
      → At p k d
      → At p k (write_with path r content d o).1
  write_with-At path r content d works other h = rw other h
  write_with-At path r content d refused other h = h
  write_with-At path r content d (stops part) other h = rw other h

  write_at-At :
      (path content : Text) (d : Disk) (o : Option Node) (e : Error)
      → Firm k
      → d.node path ≡ o
      → content_of o ≡ err e
      → At p k d
      → At p k (write_at path content d o).1
  write_at-At path content d (some directory) e firm at broken h = h
  write_at-At path content d (some (file true old)) e firm at broken h = absurd (cc)
  write_at-At path content d (some (file false old)) e firm at broken h =
      write_with-At path false content d (outcome d.outcomes)
        (elsewhere path d _ at (λ q. firm old (cc)) h) h
  write_at-At path content d none e firm at broken h =
      write_with-At path true content d (outcome d.outcomes) (elsewhere path d _ at (λ q. cc) h) h

  make_with-At :
      (path : Text) (d : Disk) (o : Outcome)
      → same p path ≡ false
      → At p k d
      → At p k (make_with path d o).1
  make_with-At path d works other h = rw other h
  make_with-At path d refused other h = h
  make_with-At path d (stops part) other h = h

  make_at-At :
      (path : Text) (d : Disk) (o : Option Node)
      → d.node path ≡ o
      → At p k d
      → At p k (make_at path d o).1
  make_at-At path d (some directory) at h = h
  make_at-At path d (some (file r old)) at h = h
  make_at-At path d none at h =
      make_with-At path d (outcome d.outcomes) (elsewhere path d _ at (λ q. cc) h) h

  pub write_file-At :
      Firm k
      → (path content : Text) (d : Disk) (e : Error) → read_file path d ≡ err e
      → At p k d
      → At p k (write_file path content d).1
  unfolding read_file write_file
  write_file-At firm path content d e broken h =
      write_at-At path content d (d.node path) e firm refl broken h

  pub make_all-At : (path : Text) (d : Disk) → At p k d → At p k (make_all path d).1
  unfolding make_all
  make_all-At path d h = make_at-At path d (d.node path) refl h

pub file-Firm : (c : Text) → Firm (file true c)
file-Firm c b q = cc

-- Without --force an export leaves every file that can be read where it stands with the content that
-- it has, whether the export succeeds or fails, and whatever fails on the way.
pub export_keeps_files :
    (p c : Text) (tools : Tools) (flags : ExportFlags) (d : Disk)
    → flags.force ≡ false
    → d.node p ≡ some (file true c)
    → (export_with tools flags d).1.node p ≡ some (file true c)
export_keeps_files p c tools flags d careful h =
    export_with-Keeps (At p (file true c)) (write_file-At p (file true c) (file-Firm c))
      (make_all-At p (file true c)) tools flags careful d h
