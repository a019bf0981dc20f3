-- ===== src/Cmd/Export/Twice.antt =====
-- Two exports, one behind the other.
use mathlib.Core.Path.{subst}
use gotchi.Base.{
  ◌+◌, ◌≡◌, refl, sym, ap, ◌∙◌, Bool, true, false, Option, none, some, List, [], ◌∷◌, All, Text,
  same_self, if◌then◌else◌, arith,
}
use gotchi.Errors.{Result, ok, err}
use gotchi.Cmd.Disk.{
  Disk, Node, file, directory, Outcome, works, refused, stops, outcome, make_with, make_at,
  make_all,
}
use gotchi.Cmd.Export.{
  ExportFlags, Entry, Source, Counts, Tools, none_yet, then_with, export_content, export_entry,
  export_entries, export_source, export_sources, sources, in_directory, listed, export_with,
}
use gotchi.Cmd.Export.Keeps.{entry-Keeps, entries-Keeps, listed-Keeps, sources-Keeps}
use gotchi.Cmd.Export.Kept.{At}
use gotchi.Cmd.Export.Written.{AllReadable, total, settle-Done}
use gotchi.Cmd.Export.Again.{
  Exported, InPlace, Listed, files, Lasting-Exported, Lasting-Listed, Lasting-AllReadable,
  Lasting-At, files_of, all_files, AllListed, sources_again,
}

then_with-ok :
    (f : Counts → Disk → Result Counts × Disk) (r : Result Counts × Disk) (n' : Counts) (d' : Disk)
    → then_with f r ≡ (ok n', d')
    → (n : Counts) × (d : Disk) × (r ≡ (ok n, d)) × (f n d ≡ (ok n', d'))
then_with-ok f (ok n, d) n' d' e = (n, d, refl, e)
then_with-ok f (err x, d) n' d' e = absurd (cc)

behind :
    (P : Disk → Type 0) (r : Result Counts × Disk) (n : Counts) (d : Disk)
    → r ≡ (ok n, d)
    → P r.1
    → P d
behind P r n d e h = subst (λ x. P x.1) e h

make_with-made :
    (dir : Text) (d : Disk) (o : Outcome) (u : Unit {0})
    → (make_with dir d o).0 ≡ ok u
    → (make_with dir d o).1.node dir ≡ some directory
make_with-made dir d works u e = rw (same_self dir)
make_with-made dir d refused u e = absurd (cc)
make_with-made dir d (stops part) u e = absurd (cc)

make_at-made :
    (dir : Text) (d : Disk) (o : Option Node) (u : Unit {0})
    → d.node dir ≡ o
    → (make_at dir d o).0 ≡ ok u
    → (make_at dir d o).1.node dir ≡ some directory
make_at-made dir d (some directory) u at e = at
make_at-made dir d (some (file r old)) u at e = absurd (cc)
make_at-made dir d none u at e = make_with-made dir d (outcome d.outcomes) u e

module _ (tools : Tools) (flags : ExportFlags) (careful : flags.force ≡ false)
    (strict : flags.skip ≡ false) where
  content_first :
      (path : Text) (n n' : Counts) (d d' : Disk) (b : Bool) (r : Result Text)
      → AllReadable d
      → (if b then (ok n, d) else export_content tools flags path n d r) ≡ (ok n', d')
      → Exported tools path b r d' × (total n' ≡ total n + (if b then 0 else 1))
  unfolding export_content
  content_first path n n' d d' true r readable e =
      let counted : n ≡ n' = cc in (tt, rw (sym counted) (omega arith))
  content_first path n n' d d' false (err f) readable e = absurd (cc)
  content_first path n n' d d' false (ok embedded) readable e =
      settle-Done tools flags careful strict path embedded n n' d d' readable e

  entries_first :
      (dir : Text) (entries : List Entry) (n n' : Counts) (d d' : Disk)
      → AllReadable d
      → export_entries tools flags dir entries n d ≡ (ok n', d')
      → All (InPlace tools dir d') entries × (total n' ≡ total n + files entries)
  unfolding export_entries export_entry
  entries_first dir [] n n' d d' readable e =
      let counted : n ≡ n' = cc in (tt, rw (sym counted) (omega arith))
  entries_first dir (x ∷ xs) n n' d d' readable e =
      let (n1, d1, e1, e2) =
        then_with-ok (export_entries tools flags dir xs) (export_entry tools flags dir x n d) n' d'
          e in
      let path = tools.join dir x.name in
      let (there, one) = content_first path n n1 d d1 x.is_dir x.content readable e1 in
      let readable1 = behind AllReadable (export_entry tools flags dir x n d) n1 d1 e1 (
        entry-Keeps AllReadable Lasting-AllReadable.writing Lasting-AllReadable.making tools flags
          careful dir x n d readable) in
      let (rest, more) = entries_first dir xs n1 n' d1 d' readable1 e2 in
      let lasting = Lasting-Exported tools path x.is_dir x.content in
      let still =
        behind (Exported tools path x.is_dir x.content) (export_entries tools flags dir xs n1 d1) n'
          d' e2
          (entries-Keeps (Exported tools path x.is_dir x.content) lasting.writing lasting.making
            tools flags careful dir xs n1 d1 there) in
      ((still, rest), omega (arith, one, more))

  in_directory_first :
      (dir : Text) (entries : List Entry) (n n' : Counts) (r : Result (Unit {0}) × Disk) (d' : Disk)
      → AllReadable r.1
      → ((u : Unit {0}) → r.0 ≡ ok u → At dir directory r.1)
      → in_directory tools flags dir entries n r ≡ (ok n', d')
      → (At dir directory d' × All (InPlace tools dir d') entries)
        × (total n' ≡ total n + files entries)
  in_directory_first dir entries n n' (err x, d) d' readable made e = absurd (cc)
  in_directory_first dir entries n n' (ok u, d) d' readable made e =
      let (there, more) = entries_first dir entries n n' d d' readable e in
      let lasting = Lasting-At dir directory (λ c q. cc) in
      let still = behind (At dir directory) (export_entries tools flags dir entries n d) n' d' e (
        entries-Keeps (At dir directory) lasting.writing lasting.making tools flags careful dir
          entries n d (made u refl)) in
      ((still, there), more)

  listed_first :
      (dir : Text) (n n' : Counts) (d d' : Disk) (r : Result (List Entry))
      → AllReadable d
      → listed tools flags dir n d r ≡ (ok n', d')
      → Listed tools dir r d' × (total n' ≡ total n + files_of r)
  unfolding make_all
  listed_first dir n n' d d' (err x) readable e = absurd (cc)
  listed_first dir n n' d d' (ok entries) readable e =
      in_directory_first dir entries n n' (make_all dir d) d'
        (Lasting-AllReadable.making dir d readable)
        (λ u f. make_at-made dir d (d.node dir) u refl f) e

  sources_first :
      (srcs : List Source) (n n' : Counts) (d d' : Disk)
      → AllReadable d
      → export_sources tools flags srcs n d ≡ (ok n', d')
      → AllListed tools flags srcs d' × (total n' ≡ total n + all_files srcs)
  unfolding export_sources export_source
  sources_first [] n n' d d' readable e =
      let counted : n ≡ n' = cc in (tt, rw (sym counted) (omega arith))
  sources_first (src ∷ rest) n n' d d' readable e =
      let (n1, d1, e1, e2) =
        then_with-ok (export_sources tools flags rest) (export_source tools flags src n d) n' d'
          e in
      let dir = tools.join flags.output_dir src.name in
      let (there, one) = listed_first dir n n1 d d1 src.entries readable e1 in
      let readable1 = behind AllReadable (export_source tools flags src n d) n1 d1 e1 (
        listed-Keeps AllReadable Lasting-AllReadable.writing Lasting-AllReadable.making tools flags
          careful dir n d src.entries readable) in
      let (others, more) = sources_first rest n1 n' d1 d' readable1 e2 in
      let lasting = Lasting-Listed tools dir src.entries in
      let still =
        behind (Listed tools dir src.entries) (export_sources tools flags rest n1 d1) n' d' e2 (
          sources-Keeps (Listed tools dir src.entries) lasting.writing lasting.making tools flags
            careful rest n1 d1 there) in
      ((still, others), omega (arith, one, more))

  later_AllListed :
      (srcs : List Source) (d : Disk) (os : List Outcome)
      → AllListed tools flags srcs d
      → AllListed tools flags srcs (record d { outcomes = os })
  later_AllListed [] d os x = tt
  later_AllListed (src ∷ rest) d os (x, xs) = (
    (Lasting-Listed tools (tools.join flags.output_dir src.name) src.entries).weather d os x,
    later_AllListed rest d os xs,
  )

  -- the tests of the flags, which an export that succeeds has passed
  passes :
      (d : Disk) (n : Counts) (d' : Disk)
      → export_with tools flags d ≡ (ok n, d')
      → (e : Disk)
      → export_with tools flags e ≡ export_sources tools flags (sources tools flags) none_yet e
  unfolding export_with
  passes d n d' h e = ground arith

  -- Where every file on the disk can be read, neither --force nor --skip is given and an export
  -- succeeds, another one, whatever would become of its calls that write, succeeds without a write:
  -- it leaves the disk as it is and counts as unchanged all the files that the first one counted.
  pub export_again :
      (d d' : Disk) (n : Counts) (os : List Outcome)
      → AllReadable d
      → export_with tools flags d ≡ (ok n, d')
      → export_with tools flags (record d' { outcomes = os }) ≡ (
        ok (record { copied = 0; skipped = 0; unchanged = n.copied + n.skipped + n.unchanged }),
        record d' { outcomes = os },
      )
  export_again d d' n os readable e =
      let (there, more) =
        sources_first (sources tools flags) none_yet n d d' readable
          (sym (passes d n d' e d) ∙ e) in
      passes d n d' e (record d' { outcomes = os })
      ∙ sources_again tools flags (sources tools flags) none_yet (record d' { outcomes = os })
          (later_AllListed (sources tools flags) d' os there)
      ∙ ap
          (λ k.
            (ok (record { copied = 0; skipped = 0; unchanged = k }), record d' { outcomes = os }))
          (omega (arith, more))
