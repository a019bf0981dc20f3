-- ===== src/Auth/Middleware/Paths.antt =====
-- isTenantOptionalPath of auth/middleware.go as a relation of a path and a list of patterns.
use mathlib.Core.Path.{◌∙◌}
use mathlib.Core.List.{reverse, reverse-cons}
use mathlib.Mathlib.Data.List.Basic.{reverse-concat', reverse-Involutive}
use gotchi.Base.{
  arith, ◌==◌, ==_iff, ◌≡◌, ◌≢◌, refl, ap, ◌⊎◌, ◌↔◌, inl, inr, true, false, Bool-cases, List, [],
  ◌∷◌, ◌++◌, Text, same, same_iff,
}
use gotchi.Strings.{has_prefix, has_suffix, trim_suffix}
use gotchi.Auth.Middleware.{star, allows, is_tenant_optional_path}

-- A pattern ends in "*" and the path begins with the rest, or it is the path.
abbrev pub Admits : Text → Text → Type 0
Admits path pattern =
    ((p : Text) × (rest : Text) × (pattern ≡ p ++ star) × (path ≡ p ++ rest))
    ⊎ ((pattern ≢ []) × ((p : Text) → pattern ≢ p ++ star) × (path ≡ pattern))

abbrev pub AnyAdmits : Text → List Text → Type 0
AnyAdmits path [] = ⊥
AnyAdmits path (a ∷ rest) = Admits path a ⊎ AnyAdmits path rest

has_prefix_sound : (s p : Text) → has_prefix s p ≡ true → (rest : Text) × (s ≡ p ++ rest)
unfolding has_prefix
has_prefix_sound s [] h = (s, refl)
has_prefix_sound [] (d ∷ p) h = absurd (cc)
has_prefix_sound (c ∷ s) (d ∷ p) h = elim (Bool-cases (c == d)) [
  | inl equal ↦
      (let (rest, found) = has_prefix_sound s p (rw equal at h) in
        (rest, rw ((==_iff c d).0 equal, found)))
  | inr differ ↦ absurd (let r = rw differ at h in cc)
]

has_prefix_complete : (p rest : Text) → has_prefix (p ++ rest) p ≡ true
unfolding has_prefix
has_prefix_complete [] rest = refl
has_prefix_complete (d ∷ p) rest = ground (arith, has_prefix_complete p rest)

has_suffix-star : (p : Text) → has_suffix (p ++ star) star ≡ true
unfolding has_suffix has_prefix
has_suffix-star p = rw (reverse-concat' p 42)

trim_suffix-star : (p : Text) → trim_suffix (p ++ star) star ≡ p
unfolding trim_suffix
trim_suffix-star p = rw (has_suffix-star p, reverse-concat' p 42) (reverse-Involutive p)

starred_reversed : (r : Text) → has_prefix r star ≡ true → (p : Text) × (reverse r ≡ p ++ star)
unfolding has_prefix
starred_reversed [] h = absurd (cc)
starred_reversed (c ∷ t) h = elim (Bool-cases (c == 42)) [
  | inl equal ↦
      (reverse t, reverse-cons c t ∙ ap (λ x. reverse t ++ (x ∷ [])) ((==_iff c 42).0 equal))
  | inr differ ↦ absurd (let r = rw differ at h in cc)
]

starred : (a : Text) → has_suffix a star ≡ true → (p : Text) × (a ≡ p ++ star)
unfolding has_suffix
starred a h =
    let (p, found) = starred_reversed (reverse a) h in let twice = reverse-Involutive a in (p, cc)

allows-star : (path p : Text) → allows path (p ++ star) ≡ has_prefix path p
unfolding allows
allows-star path [] = rw (has_suffix-star [], trim_suffix-star [])
allows-star path (c ∷ p) = rw (has_suffix-star (c ∷ p), trim_suffix-star (c ∷ p))

plain_sound : (path a : Text) → has_suffix a star ≡ false → allows path a ≡ true → Admits path a
unfolding allows
plain_sound path [] plain h = absurd (cc)
plain_sound path (c ∷ a) plain h =
    let equal : same path (c ∷ a) ≡ true = rw plain at h in
    inr (
      λ e. cc,
      λ p e. (let ends = has_suffix-star p in let moved = ap (λ x. has_suffix x star) e in cc),
      (same_iff path (c ∷ a)).0 equal,
    )

plain_complete :
    (path a : Text) → a ≢ [] → has_suffix a star ≡ false → path ≡ a → allows path a ≡ true
unfolding allows
plain_complete path [] full plain equal = absurd (full refl)
plain_complete path (c ∷ a) full plain equal = rw plain ((same_iff path (c ∷ a)).1 equal)

allows_sound : (path a : Text) → allows path a ≡ true → Admits path a
allows_sound path a h = elim (Bool-cases (has_suffix a star)) [
  | inl ends ↦
      (let (p, pattern) = starred a ends in
        let moved = ap (allows path) pattern in
        let same_test = allows-star path p in
        let (rest, found) = has_prefix_sound path p (cc) in inl (p, rest, pattern, found))
  | inr plain ↦ plain_sound path a plain h
]

allows_complete : (path a : Text) → Admits path a → allows path a ≡ true
allows_complete path a (inl (p, rest, pattern, found)) =
    rw (pattern, allows-star path p, found) (has_prefix_complete p rest)
allows_complete path a (inr (full, no_star, equal)) = elim (Bool-cases (has_suffix a star)) [
  | inl ends ↦ (let (p, pattern) = starred a ends in absurd (no_star p pattern))
  | inr plain ↦ plain_complete path a full plain equal
]

-- A path needs no tenant exactly if one of the patterns admits it: a pattern that ends in "*" admits
-- every path that begins with what stands before the "*", any other pattern that is not empty admits
-- itself only, and the empty pattern admits nothing.
pub is_tenant_optional_path_iff :
    (path : Text) (patterns : List Text)
    → (is_tenant_optional_path path patterns ≡ true) ↔ AnyAdmits path patterns
unfolding is_tenant_optional_path
is_tenant_optional_path_iff path [] = (λ h. cc, λ h. absurd h)
is_tenant_optional_path_iff path (a ∷ rest) = elim (Bool-cases (allows path a)) [
  | inl admits ↦ (λ h. inl (allows_sound path a admits), λ h. rw admits)
  | inr refuses ↦ (
    λ h. inr ((is_tenant_optional_path_iff path rest).0 (rw refuses at h)),
    λ h. elim h [
      | inl admitted ↦ absurd (let yes = allows_complete path a admitted in cc)
      | inr found ↦ rw refuses ((is_tenant_optional_path_iff path rest).1 found)
    ],
  )
]
