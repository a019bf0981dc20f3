-- ===== src/Strings.antt =====
-- Package `strings` and `unicode` of Go as the program calls them, on the bytes of a string.
pub mod Decimal
pub mod Base64
pub mod Splits
use mathlib.Core.List.{reverse}
use gotchi.Base.{
  Option, none, some, zero, suc, List, length, ℕ, ◌+◌, Bool, true, false, ◌&&◌, ◌||◌, ltb, leb,
  ◌==◌, if◌then◌else◌, [], ◌∷◌, map, Text, ◌++◌, ◌≡◌, refl, arith,
}

-- strings.HasPrefix
unfoldable pub has_prefix : Text → Text → Bool
has_prefix s [] = true
has_prefix [] (d ∷ p) = false
has_prefix (c ∷ s) (d ∷ p) = c == d && has_prefix s p

-- strings.Contains
unfoldable pub contains : Text → Text → Bool
contains [] w = has_prefix [] w
contains (c ∷ s) w = has_prefix (c ∷ s) w || contains s w

abbrev pub is_ascii : Text → Bool
is_ascii [] = true
is_ascii (c ∷ s) = ltb c 128 && is_ascii s

abbrev lower_byte : ℕ → ℕ
lower_byte c = if leb b'A' c && leb c b'Z' then c + 32 else c

-- strings.ToLower: bytewise where the text is ASCII; `unicode_lower` is the table of package
-- `unicode` for the others.
unfoldable pub to_lower : (Text → Text) → Text → Text
to_lower unicode_lower s = if is_ascii s then map lower_byte s else unicode_lower s

-- The control characters are U+0000 to U+001F and U+007F to U+009F; the last 32 are the bytes 0xc2
-- 0x80 to 0xc2 0x9f, and no other sequence holds a byte 0xc2 or an ASCII byte behind its first.
unfoldable pub has_control : Text → Bool
has_control [] = false
has_control (c ∷ []) = ltb c 32 || c == 127
has_control (c ∷ d ∷ s) =
    (ltb c 32 || c == 127) || (c == 194 && (leb 128 d && leb d 159)) || has_control (d ∷ s)

-- strings.HasSuffix and strings.TrimSuffix
unfoldable pub has_suffix : Text → Text → Bool
unfolding has_prefix
has_suffix s t = has_prefix (reverse s) (reverse t)

abbrev pub drop : ℕ → Text → Text
drop zero s = s
drop (suc n) [] = []
drop (suc n) (c ∷ s) = drop n s

unfoldable pub trim_suffix : Text → Text → Text
unfolding has_suffix
trim_suffix s t = if has_suffix s t then reverse (drop (length t) (reverse s)) else s

-- strings.TrimPrefix
unfoldable pub trim_prefix : Text → Text → Text
unfolding has_prefix
trim_prefix s p = if has_prefix s p then drop (length p) s else s

pub has_prefix-append : (p s : Text) → has_prefix (p ++ s) p ≡ true
unfolding has_prefix
has_prefix-append [] s = refl
has_prefix-append (c ∷ p) s = ground (arith, has_prefix-append p s)

drop-append : (p s : Text) → drop (length p) (p ++ s) ≡ s
drop-append [] s = refl
drop-append (c ∷ p) s = drop-append p s

pub trim_prefix-append : (p s : Text) → trim_prefix (p ++ s) p ≡ s
unfolding trim_prefix
trim_prefix-append p s = rw (has_prefix-append p s) (drop-append p s)

abbrev pub is_space : ℕ → Bool
is_space c = c == 32 || (leb 9 c && leb c 13)

unfoldable pub trim_left : Text → Text
trim_left [] = []
trim_left (c ∷ s) = let rest = trim_left s in if is_space c then rest else c ∷ s

-- strings.TrimSpace; `unicode_trim` serves the texts that are not ASCII
unfoldable pub trim_space : (Text → Text) → Text → Text
unfolding trim_left
trim_space unicode_trim s =
    if is_ascii s then reverse (trim_left (reverse (trim_left s))) else unicode_trim s

abbrev add_first : ℕ → List Text → List Text
add_first c [] = (c ∷ []) ∷ []
add_first c (p ∷ ps) = (c ∷ p) ∷ ps

-- strings.Split by one byte
unfoldable pub split : ℕ → Text → List Text
split sep [] = [] ∷ []
split sep (c ∷ s) = if c == sep then [] ∷ split sep s else add_first c (split sep s)

-- what stands before and behind the first `b`
unfoldable pub cut : ℕ → Text → Option (Text × Text)
cut b [] = none
cut b (c ∷ s) =
    let rest = cut b s in
    if c == b then some ([], s) else elim rest [ none ↦ none | some (x, y) ↦ some (c ∷ x, y) ]
