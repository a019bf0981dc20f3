-- ===== src/Strings/Decimal.antt =====
-- Decimal numbers: `%d` of package fmt, and strconv.ParseUint and strconv.Atoi in base 10.
use gotchi.Base.{
  ℕ, zero, suc, ◌+◌, ◌*◌, ◌-◌, ◌/◌, ◌%◌, ◌^◌, ◌<◌, ◌≤◌, ◌≡◌, refl, ap, ◌∙◌, ltb, leb, ◌==◌, ◌&&◌,
  Bool, true, false, Bool-cases, inl, inr, Option, none, some, ℤ, pos, negsuc, [], ◌∷◌, Text, All,
  is_empty, arith, if◌then◌else◌,
}

-- the digits of n in front of a text; fuel above n is enough
unfoldable pub print_from : ℕ → ℕ → Text → Text
print_from zero n rest = rest
print_from (suc fuel) n rest =
    let more = print_from fuel (n / 10) ((48 + n % 10) ∷ rest) in
    if ltb n 10 then (48 + n) ∷ rest else more

-- fmt's %d
unfoldable pub print_decimal : ℕ → Text
unfolding print_from
print_decimal n = print_from (suc n) n []

abbrev pub is_digit : ℕ → Bool
is_digit c = leb 48 c && leb c 57

unfoldable pub parse_digits : ℕ → Text → Option ℕ
parse_digits n [] = some n
parse_digits n (c ∷ s) =
    let rest = parse_digits (n * 10 + (c - 48)) s in if is_digit c then rest else none

abbrev pub below : ℕ → Option ℕ → Option ℕ
below bound none = none
below bound (some n) = if ltb n bound then some n else none

-- strconv.ParseUint(s, 10, bits)
unfoldable pub parse_uint : ℕ → Text → Option ℕ
unfolding parse_digits
parse_uint bits s = if is_empty s then none else below (2 ^ bits) (parse_digits 0 s)

abbrev pub as_pos : Option ℕ → Option ℤ
as_pos none = none
as_pos (some n) = some (pos n)

abbrev pub negate : ℕ → ℤ
negate zero = pos 0
negate (suc n) = negsuc n

abbrev pub as_neg : Option ℕ → Option ℤ
as_neg none = none
as_neg (some n) = some (negate n)

abbrev signed : ℕ → Text → Option ℤ
unfolding parse_uint
signed c s =
    if c == b'+'
    then as_pos (parse_uint 63 s)
    else (if c == b'-'
        then as_neg (if is_empty s then none else below (2 ^ 63 + 1) (parse_digits 0 s))
        else as_pos (parse_uint 63 (c ∷ s)))

-- strconv.Atoi on 64 bits
unfoldable pub atoi : Text → Option ℤ
unfolding signed
atoi [] = none
atoi (c ∷ s) = signed c s

parse-digit :
    (n d : ℕ) (rest : Text)
    → d < 10
    → parse_digits n ((48 + d) ∷ rest) ≡ parse_digits (n * 10 + d) rest
unfolding parse_digits
parse-digit n d rest h =
    let digit : is_digit (48 + d) ≡ true = ground arith in
    let value : 48 + d - 48 ≡ d = omega arith in rw (digit, value) refl

parse-print_from :
    (fuel n : ℕ) (rest : Text)
    → n < fuel
    → parse_digits 0 (print_from fuel n rest) ≡ parse_digits n rest
unfolding print_from
parse-print_from zero n rest h = absurd (omega arith)
parse-print_from (suc fuel) n rest h = elim (Bool-cases (ltb n 10)) [
  | inl one ↦
      let small : n < 10 = ground arith in
      let same_n : 0 * 10 + n ≡ n = omega arith in
      rw one (parse-digit 0 n rest small ∙ ap (λ m. parse_digits m rest) same_n)
  | inr many ↦
      let large : 10 ≤ n = ground arith in
      let back : n / 10 * 10 + n % 10 ≡ n = omega arith in
      rw many (
        parse-print_from fuel (n / 10) ((48 + n % 10) ∷ rest) (omega arith)
        ∙ parse-digit (n / 10) (n % 10) rest (omega arith)
        ∙ ap (λ m. parse_digits m rest) back)
]

print_from-digits :
    (fuel n : ℕ) (rest : Text)
    → All (λ c. is_digit c ≡ true) rest
    → All (λ c. is_digit c ≡ true) (print_from fuel n rest)
unfolding print_from
print_from-digits zero n rest h = h
print_from-digits (suc fuel) n rest h = elim (Bool-cases (ltb n 10)) [
  | inl one ↦ rw one ((ground arith), h)
  | inr many ↦
      let digit : is_digit (48 + n % 10) ≡ true = ground arith in
      rw many (print_from-digits fuel (n / 10) ((48 + n % 10) ∷ rest) (digit, h))
]

pub print_decimal-digits : (n : ℕ) → All (λ c. is_digit c ≡ true) (print_decimal n)
unfolding print_decimal
print_decimal-digits n = print_from-digits (suc n) n [] tt

-- something is printed
print_from-ne_nil : (fuel n c : ℕ) (rest : Text) → is_empty (print_from fuel n (c ∷ rest)) ≡ false
unfolding print_from
print_from-ne_nil zero n c rest = refl
print_from-ne_nil (suc fuel) n c rest = elim (Bool-cases (ltb n 10)) [
  | inl one ↦ rw one refl
  | inr many ↦ rw many (print_from-ne_nil fuel (n / 10) (48 + n % 10) (c ∷ rest))
]

print_decimal-ne_nil : (n : ℕ) → is_empty (print_decimal n) ≡ false
unfolding print_decimal print_from
print_decimal-ne_nil n = elim (Bool-cases (ltb n 10)) [
  | inl one ↦ rw one refl
  | inr many ↦ rw many (print_from-ne_nil n (n / 10) (48 + n % 10) [])
]

pub parse_uint-print_decimal :
    (bits n : ℕ) → n < 2 ^ bits → parse_uint bits (print_decimal n) ≡ some n
unfolding parse_uint
parse_uint-print_decimal bits n h =
    let parsed : parse_digits 0 (print_decimal n) ≡ some n =
      unfold print_decimal in
      (parse-print_from (suc n) n [] (omega arith) ∙ unfold parse_digits in refl) in
    let fits : ltb n (2 ^ bits) ≡ true = ground arith in
    rw (print_decimal-ne_nil n, parsed, fits) refl

below-lt : (bound : ℕ) (o : Option ℕ) (n : ℕ) → below bound o ≡ some n → n < bound
below-lt bound none n h = absurd (cc)
below-lt bound (some m) n h = ground arith

-- what is parsed fits
pub parse_uint-lt : (bits n : ℕ) (s : Text) → parse_uint bits s ≡ some n → n < 2 ^ bits
unfolding parse_uint
parse_uint-lt bits n s h = elim (Bool-cases (is_empty s)) [
  | inl empty ↦ absurd (let e = rw empty at h in cc)
  | inr more ↦ below-lt (2 ^ bits) (parse_digits 0 s) n (rw more at h)
]

atoi-digits :
    (t : Text)
    → is_empty t ≡ false
    → All (λ c. is_digit c ≡ true) t
    → atoi t ≡ as_pos (parse_uint 63 t)
unfolding atoi signed
atoi-digits [] e h = absurd (cc)
atoi-digits (c ∷ s) e (h, hs) =
    let not_plus : (c == b'+') ≡ false = ground arith in
    let not_minus : (c == b'-') ≡ false = ground arith in rw (not_plus, not_minus) refl

pub atoi-print_decimal : (n : ℕ) → n < 2 ^ 63 → atoi (print_decimal n) ≡ some (pos n)
atoi-print_decimal n h =
    atoi-digits (print_decimal n) (print_decimal-ne_nil n) (print_decimal-digits n)
    ∙ ap as_pos (parse_uint-print_decimal 63 n h)
