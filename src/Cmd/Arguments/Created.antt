-- ===== src/Cmd/Arguments/Created.antt =====
-- A `gotchi init` that succeeds.
use gotchi.Base.{
  ◌≡◌, refl, Bool, false, Bool-cases, inl, inr, List, [], ◌∷◌, any, All, Once, Text, same, same_iff,
  is_empty, arith, true, not, ◌&&◌, ◌||◌, ◌==◌, codes,
}
use gotchi.Errors.{Result, ok, err}
use gotchi.Strings.{trim_space, split}
use gotchi.Cmd.Disk.{Disk, read_file, make_all}
use gotchi.Cmd.Export.Written.{AllReadable, make_all-AllReadable}
use gotchi.Cmd.Scaffold.{FileMap, Options, all_files, generate, write_files}
use gotchi.Cmd.Scaffold.Complete.{write_files_complete, then_next-ok}
use gotchi.Cmd.Arguments.{
  InitArgs, Paths, module_or_default, init_loop, at_first, write_app, init_with, run_init,
}

-- a piece of a path that filepath.Clean leaves as it is, on every system
abbrev is_plain : Text → Bool
is_plain piece =
    not (is_empty piece)
    && (not (same piece (codes "."))
        && (not (same piece (codes "..")) && not (any (λ c. c == b'\\' || c == b':') piece)))

-- a relative path of such pieces
unfoldable pub is_clean : Text → Bool
is_clean path = not (any (λ piece. not (is_plain piece)) (split b'/' path))

-- Two clean relative paths under one root are two files.
abbrev pub Distinguishes : (Text → Text → Text) → Type 0
Distinguishes join =
    (root p q : Text) → is_clean p ≡ true → is_clean q ≡ true → join root p ≡ join root q → p ≡ q

abbrev same_path : Text × Text → Text × Text → Bool
same_path f g = same f.0 g.0

abbrev AllClean : FileMap → Type 0
AllClean files = All (λ f. is_clean f.0 ≡ true) files

module _ (join : Text → Text → Text) (apart : Distinguishes join) (root : Text) where
  same-join :
      (p q : Text)
      → is_clean p ≡ true
      → is_clean q ≡ true
      → same p q ≡ false
      → same (join root p) (join root q) ≡ false
  same-join p q cp cq h = elim (Bool-cases (same (join root p) (join root q))) [
    | inr other ↦ other
    | inl one ↦
        let one_file = apart root p q cp cq ((same_iff (join root p) (join root q)).0 one) in
        let e = (same_iff p q).1 one_file in absurd (cc)
  ]

  any-clash :
      (f : Text × Text) (files : FileMap)
      → is_clean f.0 ≡ true
      → AllClean files
      → any (same_path f) files ≡ false
      → any (λ g. same (join root f.0) (join root g.0)) files ≡ false
  any-clash f [] cf clean h = refl
  any-clash f (g ∷ rest) cf (cg, clean) h =
      let one = same-join f.0 g.0 cf cg (ground arith) in
      let others = any-clash f rest cf clean (ground arith) in rw (one, others)

  Once-clash :
      (files : FileMap)
      → AllClean files
      → Once same_path files
      → Once (λ f g. same (join root f.0) (join root g.0)) files
  Once-clash [] clean h = tt
  Once-clash (f ∷ rest) (cf, clean) (h, hs) =
      (any-clash f rest cf clean h, Once-clash rest clean hs)

all_files-AllClean : (app_name mod_path : Text) → AllClean (all_files app_name mod_path)
unfolding all_files same is_clean split
all_files-AllClean app_name mod_path =
    (refl, (refl, (refl, (refl, (refl, (refl, (refl, (refl, (refl, tt)))))))))

-- the files of a new application have different paths
all_files-Once : (app_name mod_path : Text) → Once same_path (all_files app_name mod_path)
unfolding all_files same
all_files-Once app_name mod_path =
    (refl, (refl, (refl, (refl, (refl, (refl, (refl, (refl, (refl, tt)))))))))

module _ (paths : Paths) (apart : Distinguishes paths.join) (d d' : Disk)
    (readable : AllReadable d) where
  -- the directory of the application, and each of its files with its text
  abbrev pub Created : InitArgs → Type 0
  Created a =
      All (λ f. read_file (paths.join (paths.join a.output_dir a.app_name) f.0) d' ≡ ok f.1)
        (all_files a.app_name
          (module_or_default a.app_name (trim_space paths.unicode_trim a.module_path)))

  generate-ok :
      (opts : Options) (files : FileMap)
      → generate paths.unicode_trim opts ≡ ok files
      → all_files opts.app_name opts.mod_path ≡ files
  unfolding generate
  generate-ok opts files e =
      elim (Bool-cases (is_empty (trim_space paths.unicode_trim opts.app_name))) [
        | inl blank ↦ absurd (let f = rw blank at e in cc)
        | inr named ↦ elim (Bool-cases (is_empty (trim_space paths.unicode_trim opts.mod_path))) [
          | inl blank ↦ absurd (let f = rw (named, blank) at e in cc)
          | inr given ↦ let f = rw (named, given) at e in cc
        ]
      ]

  write_app-Created :
      (a : InitArgs) (r : Result FileMap)
      → ((files : FileMap)
          → r ≡ ok files
          → all_files a.app_name
              (module_or_default a.app_name (trim_space paths.unicode_trim a.module_path))
            ≡ files)
      → write_app paths a d r ≡ (ok tt, d')
      → Created a
  unfolding write_app
  write_app-Created a (err x) h e = absurd (cc)
  write_app-Created a (ok files) h e =
      let target = paths.join a.output_dir a.app_name in
      let (u, made, e2) =
        then_next-ok (write_files paths.join paths.dir target files) (make_all target d) tt d' e in
      let same_files = h files refl in
      let all =
        all_files a.app_name
          (module_or_default a.app_name (trim_space paths.unicode_trim a.module_path)) in
      write_files_complete paths.join paths.dir target all (make_all target d).1 d'
        (make_all-AllReadable target d readable)
        (Once-clash paths.join apart target all (all_files-AllClean a.app_name _)
          (all_files-Once a.app_name _))
        (rw same_files e2)

  init_with-Created :
      (r : Result InitArgs)
      → init_with paths d r ≡ (ok tt, d')
      → (a : InitArgs) × (r ≡ ok a) × (is_empty a.app_name ≡ false) × Created a
  unfolding init_with
  init_with-Created (err x) e = absurd (cc)
  init_with-Created (ok a) e = elim (Bool-cases (is_empty a.app_name)) [
    | inl nameless ↦ absurd (let f = rw nameless at e in cc)
    | inr named ↦ (a, refl, named, write_app-Created a _ (generate-ok _) (rw named at e))
  ]

  -- Where every file on the disk can be read and filepath.Join keeps two clean relative paths under
  -- one root apart, a `gotchi init` that succeeds has read a name that is not empty, and each file of
  -- the application stands in its directory with the text for this name and module.
  pub run_init-Created :
      (args : List Text)
      → run_init paths args d ≡ (ok tt, d')
      → (a : InitArgs) × (init_loop args at_first ≡ ok a)
        × (is_empty a.app_name ≡ false)
        × Created a
  unfolding run_init
  run_init-Created args e = init_with-Created (init_loop args at_first) e
