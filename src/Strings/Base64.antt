-- ===== src/Strings/Base64.antt =====
-- base64.RawStdEncoding of Go: EncodeToString and DecodeString.
use gotchi.Base.{
  ℕ, ◌+◌, ◌*◌, ◌-◌, ◌/◌, ◌%◌, ◌<◌, ◌≡◌, refl, ltb, leb, ◌==◌, ◌&&◌, ◌||◌, false, Option, none, some,
  List, [], ◌∷◌, map, Text, All, arith, if◌then◌else◌,
}

-- the letter of six bits: A-Z, a-z, 0-9, + and /
abbrev pub letter : ℕ → ℕ
letter i =
    if ltb i 26
    then 65 + i
    else (if ltb i 52 then 71 + i else (if ltb i 62 then i - 4 else (if i == 62 then 43 else 47)))

abbrev pub sextet : ℕ → Option ℕ
sextet c =
    if leb 65 c && leb c 90
    then some (c - 65)
    else (if leb 97 c && leb c 122
        then some (c - 71)
        else (if leb 48 c && leb c 57
            then some (c + 4)
            else (if c == 43 then some 62 else (if c == 47 then some 63 else none))))

unfoldable pub encode : Text → Text
encode [] = []
encode (a ∷ []) = letter (a / 4) ∷ (letter (a % 4 * 16) ∷ [])
encode (a ∷ (b ∷ [])) = letter (a / 4) ∷ (letter (a % 4 * 16 + b / 16) ∷ (letter (b % 16 * 4) ∷ []))
encode (a ∷ (b ∷ (c ∷ s))) =
    letter (a / 4)
    ∷ (letter (a % 4 * 16 + b / 16) ∷ (letter (b % 16 * 4 + c / 64) ∷ (letter (c % 64) ∷ encode s)))

-- the decoder passes over line breaks
unfoldable pub no_breaks : Text → Text
no_breaks [] = []
no_breaks (c ∷ s) = let rest = no_breaks s in if c == 10 || c == 13 then rest else c ∷ rest

abbrev pub put : Option ℕ → Option (List ℕ) → Option (List ℕ)
put (some i) (some is) = some (i ∷ is)
put (some i) none = none
put none is = none

unfoldable pub sextets : Text → Option (List ℕ)
sextets [] = some []
sextets (c ∷ s) = put (sextet c) (sextets s)

abbrev pub put_three : ℕ → ℕ → ℕ → Option Text → Option Text
put_three a b c none = none
put_three a b c (some s) = some (a ∷ (b ∷ (c ∷ s)))

-- bits behind the last byte are not looked at
unfoldable pub join_sextets : List ℕ → Option Text
join_sextets [] = some []
join_sextets (i ∷ []) = none
join_sextets (i ∷ (j ∷ [])) = some ((i * 4 + j / 16) ∷ [])
join_sextets (i ∷ (j ∷ (k ∷ []))) = some ((i * 4 + j / 16) ∷ ((j % 16 * 16 + k / 4) ∷ []))
join_sextets (i ∷ (j ∷ (k ∷ (l ∷ is)))) =
    put_three (i * 4 + j / 16) (j % 16 * 16 + k / 4) (k % 4 * 64 + l) (join_sextets is)

abbrev pub joined : Option (List ℕ) → Option Text
unfolding join_sextets
joined none = none
joined (some is) = join_sextets is

unfoldable pub decode : Text → Option Text
unfolding no_breaks sextets joined
decode s = joined (sextets (no_breaks s))

-- the sextets of an encoding
unfoldable split_bytes : Text → List ℕ
split_bytes [] = []
split_bytes (a ∷ []) = a / 4 ∷ (a % 4 * 16 ∷ [])
split_bytes (a ∷ (b ∷ [])) = a / 4 ∷ ((a % 4 * 16 + b / 16) ∷ (b % 16 * 4 ∷ []))
split_bytes (a ∷ (b ∷ (c ∷ s))) =
    a / 4 ∷ ((a % 4 * 16 + b / 16) ∷ ((b % 16 * 4 + c / 64) ∷ (c % 64 ∷ split_bytes s)))

abbrev pub IsByte : ℕ → Type 0
IsByte c = c < 256

sextet-letter : (i : ℕ) → i < 64 → sextet (letter i) ≡ some i
sextet-letter i h = ground arith

letter-no_break : (i : ℕ) → (letter i == 10 || letter i == 13) ≡ false
letter-no_break i = ground arith

encode-map : (s : Text) → encode s ≡ map letter (split_bytes s)
unfolding encode split_bytes
encode-map [] = refl
encode-map (a ∷ []) = refl
encode-map (a ∷ (b ∷ [])) = refl
encode-map (a ∷ (b ∷ (c ∷ s))) = rw (encode-map s) refl

no_breaks-letters : (is : List ℕ) → no_breaks (map letter is) ≡ map letter is
unfolding no_breaks
no_breaks-letters [] = refl
no_breaks-letters (i ∷ is) = rw (letter-no_break i, no_breaks-letters is) refl

sextets-letters : (is : List ℕ) → All (λ i. i < 64) is → sextets (map letter is) ≡ some is
unfolding sextets
sextets-letters [] h = refl
sextets-letters (i ∷ is) (h, hs) = rw (sextet-letter i h, sextets-letters is hs) refl

split_bytes-lt : (s : Text) → All IsByte s → All (λ i. i < 64) (split_bytes s)
unfolding split_bytes
split_bytes-lt [] h = tt
split_bytes-lt (a ∷ []) (ha, h) = (omega arith, (omega arith, tt))
split_bytes-lt (a ∷ (b ∷ [])) (ha, (hb, h)) = (omega arith, (omega arith, (omega arith, tt)))
split_bytes-lt (a ∷ (b ∷ (c ∷ s))) (ha, (hb, (hc, h))) =
    (omega arith, (omega arith, (omega arith, (omega arith, split_bytes-lt s h))))

first_byte : (a b : ℕ) → b < 256 → a / 4 * 4 + (a % 4 * 16 + b / 16) / 16 ≡ a
first_byte a b h = omega arith

second_byte :
    (a b c : ℕ)
    → b < 256
    → c < 256
    → (a % 4 * 16 + b / 16) % 16 * 16 + (b % 16 * 4 + c / 64) / 4 ≡ b
second_byte a b c h k = omega arith

third_byte : (b c : ℕ) → c < 256 → (b % 16 * 4 + c / 64) % 4 * 64 + c % 64 ≡ c
third_byte b c h = omega arith

join-split_bytes : (s : Text) → All IsByte s → join_sextets (split_bytes s) ≡ some s
unfolding join_sextets split_bytes
join-split_bytes [] h = refl
join-split_bytes (a ∷ []) (ha, h) =
    let e : a / 4 * 4 + a % 4 * 16 / 16 ≡ a = omega arith in rw e refl
join-split_bytes (a ∷ (b ∷ [])) (ha, (hb, h)) =
    let e : (a % 4 * 16 + b / 16) % 16 * 16 + b % 16 * 4 / 4 ≡ b = omega arith in
    rw (first_byte a b hb, e) refl
join-split_bytes (a ∷ (b ∷ (c ∷ s))) (ha, (hb, (hc, h))) =
    rw (first_byte a b hb, second_byte a b c hb hc, third_byte b c hc, join-split_bytes s h) refl

-- what is encoded is decoded
pub decode-encode : (s : Text) → All IsByte s → decode (encode s) ≡ some s
unfolding decode joined
decode-encode s h =
    rw
      (
        encode-map s,
        no_breaks-letters (split_bytes s),
        sextets-letters (split_bytes s) (split_bytes-lt s h),
      )
      (join-split_bytes s h)

letters-free : (is : List ℕ) → All (λ c. (c == b'$') ≡ false) (map letter is)
letters-free [] = tt
letters-free (i ∷ is) = (ground arith, letters-free is)

-- no letter is the separator of a PHC string
pub encode-free : (s : Text) → All (λ c. (c == b'$') ≡ false) (encode s)
encode-free s = rw (encode-map s) (letters-free (split_bytes s))
