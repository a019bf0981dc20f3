-- ===== src/Password/Hasher/Tests.antt =====
-- A toy key derivation, and the theorems at inputs that meet their hypotheses.
use gotchi.Base.{
  ℕ, zero, suc, ◌+◌, ◌%◌, ◌<◌, ◌≡◌, refl, ◌&&◌, [], ◌∷◌, length, Text, codes, same, All, arith,
}
use gotchi.Errors.{ok}
use gotchi.Strings.{split, cut, has_prefix}
use gotchi.Strings.Decimal.{parse_uint, parse_digits, atoi, print_decimal, print_from}
use gotchi.Strings.Base64.{encode, decode, IsByte, no_breaks, sextets, join_sextets}
use gotchi.Password.Config.{HashingConfig}
use gotchi.Password.Hasher.{
  Argon2, HashingParams, key_of, hash, verify, decode_phc, decode_parts, format_phc, parse_params,
  parse_pairs, trim_prefix,
}
use gotchi.Password.Hasher.RoundTrip.{configs_differ, verify-hash}

abbrev repeat : ℕ → ℕ → Text
repeat c zero = []
repeat c (suc n) = c ∷ repeat c n

length-repeat : (c n : ℕ) → length (repeat c n) ≡ n
length-repeat c zero = refl
length-repeat c (suc n) = omega (arith, length-repeat c n)

repeat-bytes : (c n : ℕ) → c < 256 → All IsByte (repeat c n)
repeat-bytes c zero h = tt
repeat-bytes c (suc n) h = (h, repeat-bytes c n h)

abbrev total : Text → ℕ
total [] = 0
total (c ∷ s) = c + total s

byte_of : (n : ℕ) → n % 256 < 256
byte_of n = omega arith

abbrev toy : Argon2
toy = record {
  version = 19;
  id_key = λ password salt t m p n. repeat ((total password + total salt) % 256) n;
  id_key-bytes = λ password salt t m p n. repeat-bytes _ n (byte_of (total password + total salt));
  length-id_key =
      λ password salt t m p n ht hp. length-repeat ((total password + total salt) % 256) n;
  version-lt = omega arith;
}

abbrev old : HashingConfig
old = record { memory = 64; iterations = 1; parallelism = 1; salt_length = 4; key_length = 5 }

abbrev current : HashingConfig
current = record old { iterations = 2 }

abbrev salt : Text
salt = codes "salt"

written : hash toy old salt (codes "pw") ≡ codes "$argon2id$v=19$m=64,t=1,p=1$c2FsdA$m5ubm5s"
unfolding hash format_phc print_decimal print_from encode
written = refl

-- the right password, a hash to renew
verify-hash_example :
    verify toy current (codes "pw") (hash toy old salt (codes "pw"))
    ≡ ok (
      same (key_of toy old (codes "pw") salt) (key_of toy old (codes "pw") salt),
      same (key_of toy old (codes "pw") salt) (key_of toy old (codes "pw") salt)
          && configs_differ current old,
    )
verify-hash_example =
    verify-hash toy current old salt (codes "pw") (codes "pw")
      (omega arith, omega arith, omega arith, omega arith, omega arith) (omega arith) (omega arith)
      (omega arith, (omega arith, (omega arith, (omega arith, tt)))) refl

abbrev params : HashingParams
params = record { memory = 8; iterations = 0; parallelism = 4; salt_length = 4; key_length = 2 }

-- a parameter given twice, and none for the iterations
read :
    decode_phc 19 (codes "$argon2id$v=19$p=4,m=7,m=8$c2FsdA$AAA") ≡ ok (params, salt, 0 ∷ (0 ∷ []))
unfolding decode_phc decode_parts split cut parse_params parse_pairs trim_prefix atoi parse_uint
    parse_digits decode no_breaks sextets join_sextets has_prefix same
read = refl
