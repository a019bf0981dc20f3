-- ===== src/Password/Hasher/RoundTrip.antt =====
-- What Hash writes, decodePHC reads back, and Verify compares.
use gotchi.Base.{
  ℕ, ◌≤◌, ◌<◌, ◌%◌, ◌^◌, ◌≡◌, refl, ap, ◌∙◌, ◌==◌, ◌&&◌, ◌||◌, not, Bool, true, false, [], ◌∷◌,
  ◌++◌, length, Text, codes, same, All, arith,
}
use gotchi.Errors.{ok}
use gotchi.Strings.{split, cut, has_prefix}
use gotchi.Strings.Decimal.{
  print_decimal, is_digit, print_decimal-digits, parse_uint-print_decimal, atoi-print_decimal,
}
use gotchi.Strings.Base64.{encode, IsByte, decode-encode, encode-free}
use gotchi.Strings.Splits.{Free, split-piece, split-last}
use gotchi.Password.Config.{HashingConfig}
use gotchi.Password.Hasher.{
  Argon2, no_params, set_pair, set_param, parse_pairs, parse_params, print_params, trim_prefix,
  decode_parts, decode_phc, format_phc, key_of, hash, verify, params_differ,
}

digits-Free :
    (sep : ℕ) (t : Text) → is_digit sep ≡ false → All (λ c. is_digit c ≡ true) t → Free sep t
digits-Free sep [] e h = tt
digits-Free sep (c ∷ t) e (h, hs) = (ground arith, digits-Free sep t e hs)

-- the numbers fit the integers of Go: uint32 and, for the parallelism, uint8
abbrev pub IsInRange : HashingConfig → Type 0
IsInRange cfg =
    (cfg.memory < 2 ^ 32)
    × (cfg.iterations < 2 ^ 32)
    × (cfg.parallelism < 2 ^ 8)
    × (cfg.salt_length < 2 ^ 32)
    × (cfg.key_length < 2 ^ 32)

read_params :
    (cfg : HashingConfig)
    → IsInRange cfg
    → parse_params (print_params cfg)
      ≡ ok (record no_params {
        memory = cfg.memory;
        iterations = cfg.iterations;
        parallelism = cfg.parallelism;
      })
unfolding parse_params parse_pairs cut set_pair set_param same
read_params cfg (m, t, p, s, k) =
    let free = λ (n : ℕ). digits-Free b',' (print_decimal n) refl (print_decimal-digits n) in
    rw
      (
        split-piece b',' (codes "m=" ++ print_decimal cfg.memory)
            ((codes "t=" ++ print_decimal cfg.iterations)
              ++ (b',' ∷ (codes "p=" ++ print_decimal cfg.parallelism)))
            (refl, (refl, free cfg.memory)),
        split-piece b',' (codes "t=" ++ print_decimal cfg.iterations)
            (codes "p=" ++ print_decimal cfg.parallelism) (refl, (refl, free cfg.iterations)),
        split-last b',' (codes "p=" ++ print_decimal cfg.parallelism)
            (refl, (refl, free cfg.parallelism)),
        parse_uint-print_decimal 32 cfg.memory m,
        parse_uint-print_decimal 32 cfg.iterations t,
        parse_uint-print_decimal 8 cfg.parallelism p,
      )
      refl

Free-append : (sep : ℕ) (s t : Text) → Free sep s → Free sep t → Free sep (s ++ t)
Free-append sep [] t h k = k
Free-append sep (c ∷ s) t (h, hs) k = (h, Free-append sep s t hs k)

numbers-Free : (n : ℕ) → Free b'$' (print_decimal n)
numbers-Free n = digits-Free b'$' (print_decimal n) refl (print_decimal-digits n)

params-Free : (cfg : HashingConfig) → Free b'$' (print_params cfg)
params-Free cfg = (
  refl,
  (
    refl,
    Free-append b'$' (print_decimal cfg.memory) _ (numbers-Free cfg.memory) (
      refl,
      (
        refl,
        (
          refl,
          Free-append b'$' (print_decimal cfg.iterations) _ (numbers-Free cfg.iterations)
              (refl, (refl, (refl, numbers-Free cfg.parallelism))),
        ),
      ),
    ),
  ),
)

-- the six parts of a PHC string
split-format_phc :
    (v : ℕ) (cfg : HashingConfig) (salt hash : Text)
    → split b'$' (format_phc v cfg salt hash)
      ≡ []
        ∷ (codes "argon2id"
            ∷ ((codes "v=" ++ print_decimal v)
                ∷ (print_params cfg ∷ (encode salt ∷ (encode hash ∷ [])))))
split-format_phc v cfg salt hash =
    let r3 = encode salt ++ (b'$' ∷ encode hash) in
    let r2 = print_params cfg ++ (b'$' ∷ r3) in
    let r1 = (codes "v=" ++ print_decimal v) ++ (b'$' ∷ r2) in
    unfold format_phc in
    (split-piece b'$' [] (codes "argon2id" ++ (b'$' ∷ r1)) tt
      ∙ ap (◌∷◌ []) (
          split-piece b'$' (codes "argon2id") r1
            (refl, (refl, (refl, (refl, (refl, (refl, (refl, (refl, tt))))))))
          ∙ ap (◌∷◌ (codes "argon2id")) (
              split-piece b'$' (codes "v=" ++ print_decimal v) r2 (refl, (refl, numbers-Free v))
              ∙ ap (◌∷◌ (codes "v=" ++ print_decimal v)) (
                  split-piece b'$' (print_params cfg) r3 (params-Free cfg)
                  ∙ ap (◌∷◌ (print_params cfg)) (
                      split-piece b'$' (encode salt) (encode hash) (encode-free salt)
                      ∙ ap (◌∷◌ (encode salt))
                          (split-last b'$' (encode hash) (encode-free hash)))))))

version_lem : (v : ℕ) → trim_prefix (codes "v=" ++ print_decimal v) (codes "v=") ≡ print_decimal v
unfolding trim_prefix has_prefix
version_lem v = refl

same_version : (v : ℕ) → (v == v) ≡ true
same_version v = ground arith

fits_uint32 : (n k : ℕ) → n ≡ k → k < 2 ^ 32 → n % 2 ^ 32 ≡ k
fits_uint32 n k e h = omega arith

pub decode_phc-format_phc :
    (v : ℕ) (cfg : HashingConfig) (salt hash : Text)
    → v < 2 ^ 63
    → IsInRange cfg
    → All IsByte salt
    → All IsByte hash
    → length salt ≡ cfg.salt_length
    → length hash ≡ cfg.key_length
    → decode_phc v (format_phc v cfg salt hash)
      ≡ ok (
        record {
          memory = cfg.memory;
          iterations = cfg.iterations;
          parallelism = cfg.parallelism;
          salt_length = cfg.salt_length;
          key_length = cfg.key_length;
        },
        salt,
        hash,
      )
unfolding decode_phc decode_parts same
decode_phc-format_phc v cfg salt hash hv (m, t, p, s, k) bs bh ls lh =
    let fits_salt : length salt % 2 ^ 32 ≡ cfg.salt_length =
      fits_uint32 (length salt) cfg.salt_length ls s in
    let fits_hash : length hash % 2 ^ 32 ≡ cfg.key_length =
      fits_uint32 (length hash) cfg.key_length lh k in
    rw
      (
        split-format_phc v cfg salt hash,
        version_lem v,
        atoi-print_decimal v hv,
        same_version v,
        read_params cfg (m, t, p, s, k),
        decode-encode salt bs,
        decode-encode hash bh,
        fits_salt,
        fits_hash,
      )
      refl

-- whether two configurations give different hashes
abbrev pub configs_differ : HashingConfig → HashingConfig → Bool
configs_differ cfg old =
    not (old.memory == cfg.memory)
    || not (old.iterations == cfg.iterations)
    || not (old.parallelism == cfg.parallelism)
    || not (old.salt_length == cfg.salt_length)
    || not (old.key_length == cfg.key_length)

-- A hash that a hasher has written is read by every hasher, also one with other parameters, where
-- the parameters fit their integers, Argon2id was given at least one iteration and one lane, and the
-- salt has its length. The password matches exactly if its key is that of the password that was
-- hashed, and a match is to be renewed exactly if a parameter differs.
pub verify-hash :
    (a : Argon2) (cfg old : HashingConfig) (salt password given : Text)
    → IsInRange old
    → 1 ≤ old.iterations
    → 1 ≤ old.parallelism
    → All IsByte salt
    → length salt ≡ old.salt_length
    → verify a cfg given (hash a old salt password)
      ≡ ok (
        same (key_of a old password salt) (key_of a old given salt),
        same (key_of a old password salt) (key_of a old given salt) && configs_differ cfg old,
      )
unfolding verify hash params_differ
verify-hash a cfg old salt password given range t p bs ls =
    let key = key_of a old password salt in
    let n = old.key_length in
    rw
      (decode_phc-format_phc a.version old salt key a.version-lt range bs
        (a.id_key-bytes password salt old.iterations old.memory old.parallelism n) ls
        (a.length-id_key password salt old.iterations old.memory old.parallelism n t p))
      refl
