-- ===== src/Strings/Splits.antt =====
-- Where strings.Split cuts a text that was put together with the separator.
use gotchi.Base.{ℕ, ◌≡◌, refl, ◌==◌, true, false, [], ◌∷◌, ◌++◌, Text, All, arith}
use gotchi.Strings.{split}

abbrev pub Free : ℕ → Text → Type 0
Free sep = All (λ c. (c == sep) ≡ false)

pub split-piece :
    (sep : ℕ) (p rest : Text) → Free sep p → split sep (p ++ (sep ∷ rest)) ≡ p ∷ split sep rest
unfolding split
split-piece sep [] rest h = let e : (sep == sep) ≡ true = ground arith in rw e refl
split-piece sep (c ∷ p) rest (h, hs) = rw (h, split-piece sep p rest hs) refl

pub split-last : (sep : ℕ) (p : Text) → Free sep p → split sep p ≡ p ∷ []
unfolding split
split-last sep [] h = refl
split-last sep (c ∷ p) (h, hs) = rw (h, split-last sep p hs) refl
