-- ===== src/Base/Lists.antt =====
-- Lists measured by native numbers, searched and edited by Boolean tests, as the queries do.
use Prim.Native.Nat.{ℕ, suc, ◌+◌}
use mathlib.Core.Path.{◌≡◌, refl, ap, ◌∙◌}
use mathlib.Core.Bool.{Bool, true, false, ◌||◌}
use mathlib.Core.List.{List, [], ◌∷◌, ◌++◌}
use mathlib.Core.Option.{Option, none, some}
use native.Mathlib.Omega.{arith}
use gotchi.Base.Tests.{if◌then◌else◌, Bool-cases}
use mathlib.Core.Logic.{inl, inr}

module _ {ℓ} {A : Type ℓ} where
  abbrev pub length : List A → ℕ
  length [] = 0
  length (x ∷ xs) = suc (length xs)

  pub length-append : (xs ys : List A) → length (xs ++ ys) ≡ length xs + length ys
  length-append [] ys = omega arith
  length-append (x ∷ xs) ys = omega (arith, length-append xs ys)

  abbrev pub any : (A → Bool) → List A → Bool
  any p [] = false
  any p (x ∷ xs) = p x || any p xs

  -- The first element that passes the test.
  abbrev pub find? : (A → Bool) → List A → Option A
  find? p [] = none
  find? p (x ∷ xs) = if p x then some x else find? p xs

  -- The number of elements that pass the test.
  abbrev pub count_by : (A → Bool) → List A → ℕ
  count_by p [] = 0
  count_by p (x ∷ xs) = (if p x then 1 else 0) + count_by p xs

  -- Rewrites the elements that pass the test, as an UPDATE does.
  abbrev pub update_by : (A → Bool) → (A → A) → List A → List A
  update_by p f [] = []
  update_by p f (x ∷ xs) = (if p x then f x else x) ∷ update_by p f xs

  -- Removes the elements that pass the test, as a DELETE does.
  abbrev pub remove_by : (A → Bool) → List A → List A
  remove_by p [] = []
  remove_by p (x ∷ xs) = let rest = remove_by p xs in if p x then rest else x ∷ rest

module _ {ℓ κ} {A : Type ℓ} (P : A → Type κ) where
  abbrev pub All : List A → Type κ
  All [] = Unit
  All (x ∷ xs) = P x × All xs

module _ {ℓ} {A : Type ℓ} where
  -- an element that a search found passes the test
  pub find?_sound : (p : A → Bool) (xs : List A) (a : A) → find? p xs ≡ some a → p a ≡ true
  find?_sound p [] a h = cc
  find?_sound p (x ∷ xs) a h = elim (Bool-cases (p x)) [
    | inl yes' ↦ ground arith
    | inr no' ↦ find?_sound p xs a (rw no' at h)
  ]

  -- and every test that it passes finds something
  pub any_of_find? :
      (p q : A → Bool) (xs : List A) (a : A) → find? p xs ≡ some a → q a ≡ true → any q xs ≡ true
  any_of_find? p q [] a h k = cc
  any_of_find? p q (x ∷ xs) a h k = elim (Bool-cases (p x)) [
    | inl yes' ↦ ground arith
    | inr no' ↦ ground (arith, any_of_find? p q xs a (rw no' at h) k)
  ]

module _ {ℓ} {A : Type ℓ} where
  -- an element that is found and rewritten is found so, where this keeps the test
  pub find?-update_by :
      (p : A → Bool) (f : A → A) (xs : List A) (a : A)
      → ((x : A) → p (f x) ≡ p x)
      → find? p xs ≡ some a
      → find? p (update_by p f xs) ≡ some (f a)
  find?-update_by p f [] a k h = absurd (cc)
  find?-update_by p f (x ∷ xs) a k h = elim (Bool-cases (p x)) [
    | inl yes' ↦
        let same : x ≡ a = let e = rw yes' at h in cc in
        rw (yes', k x, yes') (ap (λ y. some (f y)) same)
    | inr no' ↦ rw (no', no') (find?-update_by p f xs a k (rw no' at h))
  ]

module _ {ℓ κ} {A : Type ℓ} (P : A → Type κ) where
  pub All-update_by :
      (q : A → Bool) (f : A → A) (xs : List A)
      → ((x : A) → P x → P (f x))
      → All P xs
      → All P (update_by q f xs)
  All-update_by q f [] k h = tt
  All-update_by q f (x ∷ xs) k (h, hs) = elim (Bool-cases (q x)) [
    | inl yes' ↦ rw yes' (k x h, All-update_by q f xs k hs)
    | inr no' ↦ rw no' (h, All-update_by q f xs k hs)
  ]

  pub All-remove_by : (q : A → Bool) (xs : List A) → All P xs → All P (remove_by q xs)
  All-remove_by q [] h = tt
  All-remove_by q (x ∷ xs) (h, hs) = elim (Bool-cases (q x)) [
    | inl yes' ↦ rw yes' (All-remove_by q xs hs)
    | inr no' ↦ rw no' (h, All-remove_by q xs hs)
  ]

  pub All-snoc : (xs : List A) (y : A) → All P xs → P y → All P (xs ++ (y ∷ []))
  All-snoc [] y h k = (k, tt)
  All-snoc (x ∷ xs) y (h, hs) k = (h, All-snoc xs y hs k)

module _ {ℓ κ} {A : Type ℓ} (P Q : A → Type κ) where
  pub All-imp : (xs : List A) → ((x : A) → P x → Q x) → All P xs → All Q xs
  All-imp [] k h = tt
  All-imp (x ∷ xs) k (h, hs) = (k x h, All-imp xs k hs)

module _ {ℓ} {A : Type ℓ} where
  -- an update that the test does not see
  pub any-update_by :
      (p q : A → Bool) (f : A → A) (xs : List A)
      → ((x : A) → p (f x) ≡ p x)
      → any p (update_by q f xs) ≡ any p xs
  any-update_by p q f [] k = refl
  any-update_by p q f (x ∷ xs) k = elim (Bool-cases (q x)) [
    | inl yes' ↦ rw (yes', k x, any-update_by p q f xs k) refl
    | inr no' ↦ rw (no', any-update_by p q f xs k) refl
  ]

  pub any-snoc : (p : A → Bool) (xs : List A) (y : A) → any p (xs ++ (y ∷ [])) ≡ (any p xs || p y)
  any-snoc p [] y = ground arith
  any-snoc p (x ∷ xs) y = ground (arith, any-snoc p xs y)

-- No element comes again later in the list, where `again x y` says that y is x again.
module _ {ℓ} {A : Type ℓ} (again : A → A → Bool) where
  abbrev pub Once : List A → Type 0
  Once [] = Unit {0}
  Once (x ∷ xs) = (any (again x) xs ≡ false) × Once xs

  any-again :
      (q : A → Bool) (f : A → A) (x : A) (xs : List A)
      → ((y : A) → q y ≡ true → again x (f y) ≡ again x y)
      → any (again x) (update_by q f xs) ≡ any (again x) xs
  any-again q f x [] k = refl
  any-again q f x (y ∷ ys) k = elim (Bool-cases (q y)) [
    | inl yes' ↦ rw (yes', k y yes', any-again q f x ys k) refl
    | inr no' ↦ rw (no', any-again q f x ys k) refl
  ]

  any-same_again :
      (x x' : A) (xs : List A)
      → ((y : A) → again x' y ≡ again x y)
      → any (again x') xs ≡ any (again x) xs
  any-same_again x x' [] k = refl
  any-same_again x x' (y ∷ ys) k = rw (k y, any-same_again x x' ys k) refl

  -- an update that keeps what makes an element another
  pub Once-update_by :
      (q : A → Bool) (f : A → A) (xs : List A)
      → ((x y : A) → q y ≡ true → again x (f y) ≡ again x y)
      → ((x y : A) → q x ≡ true → again (f x) y ≡ again x y)
      → Once xs
      → Once (update_by q f xs)
  Once-update_by q f [] k l h = tt
  Once-update_by q f (x ∷ xs) k l (h, hs) = elim (Bool-cases (q x)) [
    | inl yes' ↦ rw yes' (
      any-again q f (f x) xs (k (f x)) ∙ any-same_again x (f x) xs (λ y. l x y yes') ∙ h,
      Once-update_by q f xs k l hs,
    )
    | inr no' ↦ rw no' (any-again q f x xs (k x) ∙ h, Once-update_by q f xs k l hs)
  ]

  pub Once-snoc :
      (xs : List A) (y : A)
      → ((x : A) → again x y ≡ again y x)
      → any (again y) xs ≡ false
      → Once xs
      → Once (xs ++ (y ∷ []))
  Once-snoc [] y k new h = (refl, tt)
  Once-snoc (x ∷ xs) y k new (h, hs) =
      let e = any-snoc (again x) xs y in
      let s = k x in (ground arith, Once-snoc xs y k (ground arith) hs)

  any-remove_by :
      (q : A → Bool) (x : A) (xs : List A)
      → any (again x) xs ≡ false
      → any (again x) (remove_by q xs) ≡ false
  any-remove_by q x [] h = refl
  any-remove_by q x (y ∷ ys) h = elim (Bool-cases (q y)) [
    | inl yes' ↦ rw yes' (any-remove_by q x ys (ground arith))
    | inr no' ↦ let rest = any-remove_by q x ys (ground arith) in rw no' (ground arith)
  ]

  pub Once-remove_by : (q : A → Bool) (xs : List A) → Once xs → Once (remove_by q xs)
  Once-remove_by q [] h = tt
  Once-remove_by q (x ∷ xs) (h, hs) = elim (Bool-cases (q x)) [
    | inl yes' ↦ rw yes' (Once-remove_by q xs hs)
    | inr no' ↦ rw no' (any-remove_by q x xs h, Once-remove_by q xs hs)
  ]
