-- ===== src/Password/Hasher.antt =====
-- auth/password/hasher.go: Argon2id hashes as PHC strings. Argon2id itself is a parameter.
pub mod RoundTrip
pub mod Errors
pub mod Tests
use gotchi.Base.{
  ℕ, ◌≤◌, ◌<◌, ◌%◌, ◌^◌, ◌≡◌, ◌==◌, ◌&&◌, ◌||◌, not, Bool, true, false, Option, none, some, ℤ, pos,
  negsuc, List, [], ◌∷◌, ◌++◌, length, Text, String, codes, same, All, if◌then◌else◌,
}
use gotchi.Errors.{Error, plain, wrap, Result, ok, err, ◌>>=◌}
use gotchi.Strings.{split, cut, has_prefix, drop}
use gotchi.Strings.Decimal.{print_decimal, parse_uint, atoi}
use gotchi.Strings.Base64.{encode, decode, IsByte}
use gotchi.Password.Config.{HashingConfig}
use gotchi.Password.Store.{Hasher}

-- golang.org/x/crypto/argon2: the key of a password and a salt, for iterations, memory, parallelism
-- and the length of the key
pub record Argon2 : Type 0 where
  pub version : ℕ
  pub id_key : Text → Text → ℕ → ℕ → ℕ → ℕ → Text
  pub id_key-bytes :
      (password salt : Text) (t m p n : ℕ) → All IsByte (id_key password salt t m p n)
  pub length-id_key :
      (password salt : Text) (t m p n : ℕ)
      → 1 ≤ t
      → 1 ≤ p
      → length (id_key password salt t m p n) ≡ n
  pub version-lt : version < 2 ^ 63

pub record HashingParams : Type 0 where
  pub memory : ℕ
  pub iterations : ℕ
  pub parallelism : ℕ
  pub salt_length : ℕ
  pub key_length : ℕ

abbrev pub no_params : HashingParams
no_params = record { memory = 0; iterations = 0; parallelism = 0; salt_length = 0; key_length = 0 }

abbrev pub or_error {ℓ κ} : {A : Type ℓ} {B : Type κ} → String → (A → B) → Option A → Result B
or_error text f none = err (plain text)
or_error text f (some a) = ok (f a)

-- one `case` of the switch
abbrev pub set_param : HashingParams → Text → Text → Result HashingParams
unfolding parse_uint
set_param p key value =
    if same key (codes "m")
    then or_error "invalid memory" (λ v. record p { memory = v }) (parse_uint 32 value)
    else (if same key (codes "t")
        then or_error "invalid iterations" (λ v. record p { iterations = v }) (parse_uint 32 value)
        else (if same key (codes "p")
            then or_error "invalid parallelism" (λ v. record p { parallelism = v })
                (parse_uint 8 value)
            else err (plain "unknown parameter")))

abbrev pub set_pair : HashingParams → Option (Text × Text) → Result HashingParams
unfolding set_param
set_pair p none = err (plain "invalid parameter")
set_pair p (some (key, value)) = set_param p key value

-- the loop of parseParams; strings.SplitN(pair, "=", 2) gives two parts where there is a "="
unfoldable pub parse_pairs : HashingParams → List Text → Result HashingParams
unfolding set_pair cut
parse_pairs p [] = ok p
parse_pairs p (pair ∷ pairs) = set_pair p (cut b'=' pair) >>= (λ q. parse_pairs q pairs)

unfoldable pub parse_params : Text → Result HashingParams
unfolding parse_pairs split
parse_params s = parse_pairs no_params (split b',' s)

-- strings.TrimPrefix
unfoldable pub trim_prefix : Text → Text → Text
trim_prefix s p = if has_prefix s p then drop (length p) s else s

abbrev pub check_algorithm : Text → Result (Unit {0})
check_algorithm t = if same t (codes "argon2id") then ok tt else err (plain "unsupported algorithm")

abbrev pub is_version : ℕ → ℤ → Bool
is_version v (pos n) = n == v
is_version v (negsuc n) = false

abbrev pub check_version : ℕ → Option ℤ → Result (Unit {0})
check_version v none = err (plain "invalid version")
check_version v (some n) =
    if is_version v n then ok tt else err (plain "unsupported argon2 version")

abbrev pub decoded_or : String → Option Text → Result Text
decoded_or text none = err (wrap text (plain "illegal base64 data"))
decoded_or text (some t) = ok t

-- decodePHC on the parts
unfoldable pub decode_parts : ℕ → List Text → Result (HashingParams × Text × Text)
unfolding parse_params trim_prefix atoi decode
decode_parts v (start ∷ (algorithm ∷ (version ∷ (parameters ∷ (salt ∷ (hash ∷ [])))))) =
    check_algorithm algorithm >>= (λ u.
      check_version v (atoi (trim_prefix version (codes "v="))) >>= (λ w.
        parse_params parameters >>= (λ p. decoded_or "failed to decode salt" (decode salt) >>= (λ s.
          decoded_or "failed to decode hash" (decode hash) >>= (λ k. ok (
            record p { salt_length = length s % 2 ^ 32; key_length = length k % 2 ^ 32 },
            s,
            k,
          ))))))
decode_parts v parts = err (plain "invalid hash format")

unfoldable pub decode_phc : ℕ → Text → Result (HashingParams × Text × Text)
unfolding decode_parts split
decode_phc v encoded = decode_parts v (split b'$' encoded)

-- the parts of the string that Hash formats
abbrev pub print_params : HashingConfig → Text
print_params cfg =
    (codes "m=" ++ print_decimal cfg.memory)
    ++ (b','
        ∷ ((codes "t=" ++ print_decimal cfg.iterations)
            ++ (b',' ∷ (codes "p=" ++ print_decimal cfg.parallelism))))

unfoldable pub format_phc : ℕ → HashingConfig → Text → Text → Text
unfolding print_decimal encode
format_phc v cfg salt hash =
    b'$'
    ∷ (codes "argon2id"
        ++ (b'$'
            ∷ ((codes "v=" ++ print_decimal v)
                ++ (b'$' ∷ (print_params cfg ++ (b'$' ∷ (encode salt ++ (b'$' ∷ encode hash))))))))

module _ (a : Argon2) where
  abbrev pub key_of : HashingConfig → Text → Text → Text
  key_of cfg password salt =
      a.id_key password salt cfg.iterations cfg.memory cfg.parallelism cfg.key_length

  -- `salt` is what rand.Read gives
  unfoldable pub hash : HashingConfig → Text → Text → Text
  unfolding format_phc
  hash cfg salt password = format_phc a.version cfg salt (key_of cfg password salt)

  unfoldable pub params_differ : HashingConfig → HashingParams → Bool
  params_differ cfg stored =
      not (stored.memory == cfg.memory)
      || not (stored.iterations == cfg.iterations)
      || not (stored.parallelism == cfg.parallelism)
      || not (stored.salt_length == cfg.salt_length)
      || not (stored.key_length == cfg.key_length)

  abbrev pub verify_decoded :
      HashingConfig → Text → Result (HashingParams × Text × Text) → Result (Bool × Bool)
  unfolding params_differ
  verify_decoded cfg password (err e) = err (wrap "failed to decode hash" e)
  verify_decoded cfg password (ok (p, salt, stored)) =
      let computed = a.id_key password salt p.iterations p.memory p.parallelism p.key_length in
      let match = same stored computed in ok (match, match && params_differ cfg p)

  -- whether the password matches, and whether the hash is to be renewed
  unfoldable pub verify : HashingConfig → Text → Text → Result (Bool × Bool)
  unfolding decode_phc verify_decoded
  verify cfg password encoded = verify_decoded cfg password (decode_phc a.version encoded)

  unfoldable pub new_argon2id_hasher : HashingConfig → Hasher
  unfolding hash verify
  new_argon2id_hasher cfg = record { hash = hash cfg; verify = verify cfg }
