-- ===== src/Cmd/Export/Keeps.antt =====
-- Predicates of a disk that an export without --force keeps, whether it succeeds or fails: those
-- that a write to a path keeps where nothing can be read, and that making a directory keeps.
use gotchi.Base.{◌≡◌, refl, false, List, [], ◌∷◌, Text, arith}
use gotchi.Errors.{Error, Result, ok, err}
use gotchi.Cmd.Disk.{Disk, read_file, write_file, make_all}
use gotchi.Cmd.Export.{
  ExportFlags, Entry, Source, Counts, Tools, none_yet, after_write, then_with, settle,
  export_content, export_entry, export_entries, export_source, export_sources, sources,
  in_directory, listed, export_with,
}

module _ (P : Disk → Type 0) where
  after_write-Keeps : (n : Counts) (r : Result (Unit {0}) × Disk) → P r.1 → P (after_write n r).1
  after_write-Keeps n (ok _, d) h = h
  after_write-Keeps n (err e, d) h = h

  then_with-Keeps :
      (f : Counts → Disk → Result Counts × Disk) (r : Result Counts × Disk)
      → ((n : Counts) (d : Disk) → P d → P (f n d).1)
      → P r.1
      → P (then_with f r).1
  then_with-Keeps f (ok n, d) k h = k n d h
  then_with-Keeps f (err e, d) k h = h

module _ (P : Disk → Type 0)
    (writing : (path content : Text) (d : Disk) (e : Error)
      → read_file path d ≡ err e
      → P d
      → P (write_file path content d).1)
    (making : (path : Text) (d : Disk) → P d → P (make_all path d).1) (tools : Tools)
    (flags : ExportFlags) (careful : flags.force ≡ false) where
  settle-Keeps :
      (path embedded : Text) (n : Counts) (d : Disk) (r : Result Text)
      → read_file path d ≡ r
      → P d
      → P (settle tools flags path embedded n d r).1
  unfolding settle
  settle-Keeps path embedded n d (err e) at h =
      after_write-Keeps P n (write_file path embedded d) (writing path embedded d e at h)
  settle-Keeps path embedded n d (ok existing) at h = ground arith

  content-Keeps :
      (path : Text) (n : Counts) (d : Disk) (r : Result Text)
      → P d
      → P (export_content tools flags path n d r).1
  unfolding export_content
  content-Keeps path n d (err e) h = h
  content-Keeps path n d (ok embedded) h = settle-Keeps path embedded n d (read_file path d) refl h

  pub entry-Keeps :
      (dir : Text) (entry : Entry) (n : Counts) (d : Disk)
      → P d
      → P (export_entry tools flags dir entry n d).1
  unfolding export_entry
  entry-Keeps dir entry n d h =
      let k = content-Keeps (tools.join dir entry.name) n d entry.content h in ground arith

  pub entries-Keeps :
      (dir : Text) (entries : List Entry) (n : Counts) (d : Disk)
      → P d
      → P (export_entries tools flags dir entries n d).1
  unfolding export_entries
  entries-Keeps dir [] n d h = h
  entries-Keeps dir (entry ∷ rest) n d h =
      then_with-Keeps P (export_entries tools flags dir rest)
        (export_entry tools flags dir entry n d) (entries-Keeps dir rest)
        (entry-Keeps dir entry n d h)

  pub in_directory-Keeps :
      (dir : Text) (entries : List Entry) (n : Counts) (r : Result (Unit {0}) × Disk)
      → P r.1
      → P (in_directory tools flags dir entries n r).1
  in_directory-Keeps dir entries n (ok _, d) h = entries-Keeps dir entries n d h
  in_directory-Keeps dir entries n (err e, d) h = h

  pub listed-Keeps :
      (dir : Text) (n : Counts) (d : Disk) (r : Result (List Entry))
      → P d
      → P (listed tools flags dir n d r).1
  listed-Keeps dir n d (err e) h = h
  listed-Keeps dir n d (ok entries) h =
      in_directory-Keeps dir entries n (make_all dir d) (making dir d h)

  pub sources-Keeps :
      (srcs : List Source) (n : Counts) (d : Disk) → P d → P (export_sources tools flags srcs n d).1
  unfolding export_sources export_source
  sources-Keeps [] n d h = h
  sources-Keeps (src ∷ rest) n d h =
      then_with-Keeps P (export_sources tools flags rest) (export_source tools flags src n d)
        (sources-Keeps rest) (listed-Keeps (tools.join flags.output_dir src.name) n d src.entries h)

  pub export_with-Keeps : (d : Disk) → P d → P (export_with tools flags d).1
  unfolding export_with
  export_with-Keeps d h = let k = sources-Keeps (sources tools flags) none_yet d h in ground arith
