-- ===== src/Db/Migrations/FlatFs/Pages.antt =====
-- Reading a flatDir page by page.
use Prim.Native.Nat.{ℕ, suc, zero, ◌+◌, ◌-◌, ◌≤◌, ◌<◌, ◌^◌}
use gotchi.Base.{
  ap, ◌≡◌, refl, sym, ◌∙◌, ltb, leb, true, false, Option, none, some, ℤ, pos, negsuc, List, [], ◌∷◌,
  ◌++◌, length, if◌then◌else◌, arith,
}
use gotchi.Base.{Bool-cases, inl, inr}
use gotchi.Db.Migrations.FlatFs.{
  FlatDirEntry, FlatDir, add_int, Page, page, eof, panics, drop, take, read_page, read_dir,
}

module _ {ℓ} {A : Type ℓ} where
  length-drop : (n : ℕ) (xs : List A) → length (drop n xs) ≡ length xs - n
  length-drop zero xs = omega arith
  length-drop (suc n) [] = omega arith
  length-drop (suc n) (x ∷ xs) = omega (arith, length-drop n xs)

  take-all : (n : ℕ) (xs : List A) → length xs ≤ n → take n xs ≡ xs
  take-all zero [] h = refl
  take-all zero (x ∷ xs) h = absurd (omega arith)
  take-all (suc n) [] h = refl
  take-all (suc n) (x ∷ xs) h = ap (◌∷◌ x) (take-all n xs (omega arith))

  drop-all : (n : ℕ) (xs : List A) → length xs ≤ n → drop n xs ≡ []
  drop-all zero [] h = refl
  drop-all zero (x ∷ xs) h = absurd (omega arith)
  drop-all (suc n) [] h = refl
  drop-all (suc n) (x ∷ xs) h = drop-all n xs (omega arith)

  take-drop : (n : ℕ) (xs : List A) → take n xs ++ drop n xs ≡ xs
  take-drop zero xs = refl
  take-drop (suc n) [] = refl
  take-drop (suc n) (x ∷ xs) = ap (◌∷◌ x) (take-drop n xs)

  drop-drop : (m n : ℕ) (xs : List A) → drop n (drop m xs) ≡ drop (m + n) xs
  drop-drop zero n xs = let e : zero + n ≡ n = omega arith in rw e refl
  drop-drop (suc m) zero [] = let e : suc m + zero ≡ suc m = omega arith in rw e refl
  drop-drop (suc m) (suc n) [] = let e : suc m + suc n ≡ suc (m + suc n) = omega arith in rw e refl
  drop-drop (suc m) n (x ∷ xs) =
      let e : suc m + n ≡ suc (m + n) = omega arith in rw e (drop-drop m n xs)

add_int_fits : (a b : ℕ) → a + b < 2 ^ 63 → add_int a b ≡ pos (a + b)
unfolding add_int
add_int_fits a b h = ground arith

add_int_wraps :
    (a b : ℕ)
    → a < 2 ^ 63
    → b < 2 ^ 63
    → 2 ^ 63 ≤ a + b
    → add_int a b ≡ negsuc (2 ^ 64 - (a + b) - 1)
unfolding add_int
add_int_wraps a b h k l = ground arith

abbrev cut_at : ℕ → ℕ → ℕ
cut_at len end = if ltb len end then len else end

take-cut :
    {A : Type 0} (p k : ℕ) (xs : List A)
    → take (cut_at (length xs) (p + k) - p) (drop p xs) ≡ take k (drop p xs)
take-cut p k xs = elim (Bool-cases (ltb (length xs) (p + k))) [
  | inl beyond ↦ rw beyond (
      take-all (length xs - p) (drop p xs) (omega (arith, length-drop p xs))
      ∙ sym (take-all k (drop p xs) (let l = length-drop p xs in ground arith)))
  | inr within ↦ let e : p + k - p ≡ k = omega arith in rw (within, e) refl
]

drop-cut :
    {A : Type 0} (p k : ℕ) (xs : List A) → drop (cut_at (length xs) (p + k)) xs ≡ drop k (drop p xs)
drop-cut p k xs = elim (Bool-cases (ltb (length xs) (p + k))) [
  | inl beyond ↦ rw beyond (
      drop-all (length xs) xs (omega arith)
      ∙ sym (drop-drop p k xs ∙ drop-all (p + k) xs (ground arith)))
  | inr within ↦ rw within (sym (drop-drop p k xs))
]

-- a page of a directory that is not at its end
read_dir-more :
    (d : FlatDir) (k : ℕ)
    → d.position < length d.entries
    → d.position + suc k < 2 ^ 63
    → read_dir d (pos (suc k)) ≡ (
      page (take (suc k) (drop d.position d.entries)),
      record d { position = cut_at (length d.entries) (d.position + suc k) },
    )
unfolding read_dir read_page
read_dir-more d k more fits =
    let p = d.position in
    let len = length d.entries in
    let not_end : leb len p ≡ false = ground arith in
    let forward : ltb (cut_at len (p + suc k)) p ≡ false = ground arith in
    rw (not_end, add_int_fits p (suc k) fits, forward) (rw (take-cut p (suc k) d.entries) refl)

read_dir-end :
    (d : FlatDir) (k : ℕ) → length d.entries ≤ d.position → read_dir d (pos (suc k)) ≡ (eof, d)
unfolding read_dir
read_dir-end d k done =
    let at : leb (length d.entries) d.position ≡ true = ground arith in rw at refl

-- a caller that asks for pages of n entries until io.EOF, at most `fuel` times
abbrev pub join : List FlatDirEntry → Option (List FlatDirEntry) → Option (List FlatDirEntry)
join xs none = none
join xs (some ys) = some (xs ++ ys)

abbrev pub after_page : Page → Option (List FlatDirEntry) → Option (List FlatDirEntry)
after_page (page xs) rest = join xs rest
after_page eof rest = some []
after_page panics rest = none

unfoldable pub read_all : ℤ → ℕ → FlatDir → Option (List FlatDirEntry)
unfolding read_dir
read_all n zero d = none
read_all n (suc fuel) d = after_page (read_dir d n).0 (read_all n fuel (read_dir d n).1)

read_all-step :
    (n : ℤ) (fuel : ℕ) (d : FlatDir) (r : Page × FlatDir)
    → read_dir d n ≡ r
    → read_all n (suc fuel) d ≡ after_page r.0 (read_all n fuel r.1)
unfolding read_all
read_all-step n fuel d r e = ap (λ r. after_page r.0 (read_all n fuel r.1)) e

-- Pages of any number of entries above zero, read until io.EOF, are the entries from the position on:
-- each once, in their order, after no more calls than there are entries and one, where the position
-- is not behind the entries and their number and the page fit into an int64 together.
pub read_all-rest :
    (k fuel : ℕ) (d : FlatDir)
    → d.position ≤ length d.entries
    → length d.entries + suc k < 2 ^ 63
    → length d.entries - d.position < fuel
    → read_all (pos (suc k)) fuel d ≡ some (drop d.position d.entries)
read_all-rest k zero d inside fits enough = absurd (omega arith)
read_all-rest k (suc fuel) d inside fits enough =
    elim (Bool-cases (ltb d.position (length d.entries))) [
      | inl more ↦
          let p = d.position in
          let len = length d.entries in
          let below : p < len = ground arith in
          let step = read_dir-more d k below (omega arith) in
          let cut = cut_at len (p + suc k) in
          let in_cut : cut ≤ len = ground arith in
          let less_left : len - cut < fuel = ground arith in
          let ih = read_all-rest k fuel (record d { position = cut }) in_cut fits less_left in
          read_all-step (pos (suc k)) fuel d _ step
          ∙ rw (ih, drop-cut p (suc k) d.entries) (ap some (take-drop (suc k) (drop p d.entries)))
      | inr done ↦
          let end : length d.entries ≤ d.position = ground arith in
          read_all-step (pos (suc k)) fuel d _ (read_dir-end d k end)
          ∙ rw (drop-all d.position d.entries end) refl
    ]

-- A second page whose number of entries does not fit into an int64 beside the position panics.
pub read_dir_wraps :
    (d : FlatDir) (k : ℕ)
    → d.position < length d.entries
    → length d.entries < 2 ^ 63
    → suc k < 2 ^ 63
    → 2 ^ 63 ≤ d.position + suc k
    → read_dir d (pos (suc k)) ≡ (panics, d)
unfolding read_dir read_page
read_dir_wraps d k more len n beyond =
    let not_end : leb (length d.entries) d.position ≡ false = ground arith in
    rw (not_end, add_int_wraps d.position (suc k) (omega arith) n beyond) refl
