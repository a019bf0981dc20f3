-- ===== src/Db/Migrations/Files.antt =====
-- The map of file names that mergeMigrationSources fills.
use gotchi.Base.{
  ◌≡◌, refl, sym, ◌↔◌, false, Bool-cases, inl, inr, Option, none, some, [], ◌∷◌, ◌++◌, Text, same,
  same_iff,
}
use gotchi.Errors.{plain, ok, err}
use gotchi.Db.Migrations.{Files, lookup, add_file}

abbrev pub Distinct : Files → Type 0
Distinct [] = Unit {0}
Distinct ((n, c) ∷ files) = (lookup n files ≡ none) × Distinct files

pub lookup-append :
    (n : Text) (files new : Files)
    → (lookup n (files ++ new) ≡ none) ↔ ((lookup n files ≡ none) × (lookup n new ≡ none))
unfolding lookup
lookup-append n [] new = (λ h. (refl, h), λ h. h.1)
lookup-append n ((m, c) ∷ files) new = elim (Bool-cases (same n m)) [
  | inl s ↦ rw s (λ h. absurd (cc), λ h. absurd (cc))
  | inr s ↦ rw s (lookup-append n files new)
]

same_sym : (s t : Text) → same s t ≡ false → same t s ≡ false
same_sym s t h = elim (Bool-cases (same t s)) [
  | inl e ↦ absurd (let eq = (same_iff t s).0 e in let e' = (same_iff s t).1 (sym eq) in cc)
  | inr e ↦ e
]

lookup-cons :
    (n m c : Text) (files : Files)
    → (lookup n ((m, c) ∷ files) ≡ none) ↔ ((same n m ≡ false) × (lookup n files ≡ none))
unfolding lookup
lookup-cons n m c files = elim (Bool-cases (same n m)) [
  | inl s ↦ rw s (λ h. absurd (cc), λ h. absurd (cc))
  | inr s ↦ rw s (λ h. (refl, h), λ h. h.1)
]

-- one more file, behind the others
pub Distinct-snoc :
    (files : Files) (n c : Text)
    → Distinct files
    → lookup n files ≡ none
    → Distinct (files ++ ((n, c) ∷ []))
Distinct-snoc [] n c h fresh = (unfold lookup in refl, tt)
Distinct-snoc ((m, d) ∷ files) n c (h, hs) fresh =
    let (differ, fresh') = (lookup-cons n m d files).0 fresh in
    let alone : lookup m ((n, c) ∷ []) ≡ none =
      (lookup-cons m n c []).1 (same_sym n m differ, unfold lookup in refl) in
    ((lookup-append m files ((n, c) ∷ [])).1 (h, alone), Distinct-snoc files n c hs fresh')

pub fresh_of_Distinct :
    (files : Files) (n c : Text) (rest : Files)
    → Distinct (files ++ ((n, c) ∷ rest))
    → lookup n files ≡ none
fresh_of_Distinct [] n c rest h = unfold lookup in refl
fresh_of_Distinct ((m, d) ∷ files) n c rest (h, hs) =
    let later = ((lookup-append m files ((n, c) ∷ rest)).0 h).1 in
    let differ = ((lookup-cons m n c rest).0 later).0 in
    (lookup-cons n m d files).1 (same_sym m n differ, fresh_of_Distinct files n c rest hs)

pub added :
    (files : Files) (n c : Text) (new : Files)
    → add_file files n c ≡ ok new
    → (lookup n files ≡ none) × (new ≡ files ++ ((n, c) ∷ []))
unfolding add_file
added files n c new e = go (lookup n files) refl e
  where
    go :
        (o : Option Text)
        → lookup n files ≡ o
        → elim o [
          | none ↦ ok (files ++ ((n, c) ∷ []))
          | some old ↦ err (plain "duplicate migration filename")
        ]
          ≡ ok new
        → (lookup n files ≡ none) × (new ≡ files ++ ((n, c) ∷ []))
    go none got e = (got, cc)
    go (some old) got e = absurd (cc)

pub adds :
    (files : Files) (n c : Text)
    → lookup n files ≡ none
    → add_file files n c ≡ ok (files ++ ((n, c) ∷ []))
unfolding add_file
adds files n c fresh = rw (fresh, add_file) refl
