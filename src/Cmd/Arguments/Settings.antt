-- ===== src/Cmd/Arguments/Settings.antt =====
-- What the arguments of `gotchi init` mean, setting by setting, and the loop of runInit.
use gotchi.Base.{
  ◌≡◌, refl, ◌∙◌, false, Bool-cases, inl, inr, ◌==◌, Option, none, some, List, [], ◌∷◌, ◌++◌, Text,
  codes, same, is_empty, if◌then◌else◌, All, arith,
}
use gotchi.Errors.{Error, Result, ok, err, plain, ◌>>=◌}
use gotchi.Strings.{has_prefix, trim_prefix}
use gotchi.Cmd.Arguments.{InitArgs, stop, takes_one, takes_two, init_round, init_loop}

pub data Setting : Type 0 where
  names : Text → Setting
  module_is module_next output_is output_next : Text → Setting

abbrev pub written : List Setting → List Text
written [] = []
written (names t ∷ rest) = t ∷ written rest
written (module_is v ∷ rest) = (codes "--module=" ++ v) ∷ written rest
written (module_next v ∷ rest) = codes "--module" ∷ v ∷ written rest
written (output_is v ∷ rest) = (codes "--output=" ++ v) ∷ written rest
written (output_next v ∷ rest) = codes "--output" ∷ v ∷ written rest

abbrev pub effect : Setting → InitArgs → Result InitArgs
effect (names t) a =
    if is_empty a.app_name
    then ok (record a { app_name = t })
    else err (plain "unexpected extra argument")
effect (module_is v) a = ok (record a { module_path = v })
effect (module_next v) a = ok (record a { module_path = v })
effect (output_is v) a = ok (record a { output_dir = v })
effect (output_next v) a = ok (record a { output_dir = v })

abbrev pub effects : List Setting → InitArgs → Result InitArgs
effects [] a = ok a
effects (x ∷ rest) a = effect x a >>= effects rest

-- the name of an application does not look like a flag
abbrev pub IsPlain : Setting → Type 0
IsPlain (names t) = has_prefix t (codes "-") ≡ false
IsPlain (module_is v) = Unit {0}
IsPlain (module_next v) = Unit {0}
IsPlain (output_is v) = Unit {0}
IsPlain (output_next v) = Unit {0}

one_word :
    (arg : Text) (rest : List Text) (a a' : InitArgs)
    → ((next : Option Text) → init_round arg next a ≡ takes_one a')
    → init_loop (arg ∷ rest) a ≡ init_loop rest a'
unfolding init_loop
one_word arg [] a a' h = rw (h none)
one_word arg (v ∷ rest) a a' h = rw (h (some v), init_loop)

stops :
    (arg : Text) (rest : List Text) (a : InitArgs) (e : Error)
    → ((next : Option Text) → init_round arg next a ≡ stop e)
    → init_loop (arg ∷ rest) a ≡ err e
unfolding init_loop
stops arg [] a e h = rw (h none)
stops arg (v ∷ rest) a e h = rw (h (some v), init_loop)

two_words :
    (arg v : Text) (rest : List Text) (a a' : InitArgs)
    → init_round arg (some v) a ≡ takes_two a'
    → init_loop (arg ∷ v ∷ rest) a ≡ init_loop rest a'
unfolding init_loop
two_words arg v rest a a' h = rw (h, init_loop)

-- no text without a leading dash is one of the flags
no_flag :
    (t : Text)
    → has_prefix t (codes "-") ≡ false
    → (has_prefix t (codes "--module=") ≡ false)
      × (same t (codes "--module") ≡ false)
      × (has_prefix t (codes "--output=") ≡ false)
      × (same t (codes "--output") ≡ false)
unfolding has_prefix same
no_flag [] h = (refl, refl, refl, refl)
no_flag (c ∷ t) h =
    let dash : (c == b'-') ≡ false = ground arith in rw dash (refl, refl, refl, refl)

name_round :
    (t : Text) (a : InitArgs) (next : Option Text)
    → has_prefix t (codes "-") ≡ false
    → init_round t next a ≡ (
        if is_empty a.app_name
        then takes_one (record a { app_name = t })
        else stop (plain "unexpected extra argument"))
unfolding init_round
name_round t a next h = let (p, q, r, s) = no_flag t h in rw (p, q, r, s, h) (ground arith)

-- Where no name of an application begins with a dash, the loop of runInit reads the arguments as the
-- settings that they spell, in both spellings of --module and --output: the last value of each
-- counts, and a second name is an error.
pub init_loop-written :
    (settings : List Setting) (a : InitArgs)
    → All IsPlain settings
    → init_loop (written settings) a ≡ effects settings a
unfolding init_round has_prefix same trim_prefix
init_loop-written [] a h = unfold init_loop in refl
init_loop-written (names t ∷ rest) a (h, hs) = elim (Bool-cases (is_empty a.app_name)) [
  | inl first ↦ rw first (
      one_word t (written rest) a (record a { app_name = t })
        (λ next. name_round t a next h ∙ rw first)
      ∙ init_loop-written rest _ hs)
  | inr again ↦ rw again (
      stops t (written rest) a (plain "unexpected extra argument")
        (λ next. name_round t a next h ∙ rw again))
]
init_loop-written (module_is v ∷ rest) a (h, hs) =
    one_word _ (written rest) a (record a { module_path = v }) (λ next. refl)
    ∙ init_loop-written rest _ hs
init_loop-written (module_next v ∷ rest) a (h, hs) =
    two_words _ v (written rest) a (record a { module_path = v }) refl ∙ init_loop-written rest _ hs
init_loop-written (output_is v ∷ rest) a (h, hs) =
    one_word _ (written rest) a (record a { output_dir = v }) (λ next. refl)
    ∙ init_loop-written rest _ hs
init_loop-written (output_next v ∷ rest) a (h, hs) =
    two_words _ v (written rest) a (record a { output_dir = v }) refl ∙ init_loop-written rest _ hs
