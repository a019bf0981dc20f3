-- ===== src/Password/Hasher/Errors.antt =====
-- The errors of Verify: Argon2idHasher meets what LoginHandler needs of a hasher.
use gotchi.Base.{
  ℤ, ℕ, ◌≡◌, refl, Bool, true, false, Option, none, some, List, [], ◌∷◌, Text, String, codes, same,
  if◌then◌else◌,
}
use gotchi.Errors.{as_password_error, Error, plain, wrap, Result, ok, err, ◌>>=◌}
use gotchi.Database.Connection.Fails.{carry}
use gotchi.Strings.{split, cut}
use gotchi.Strings.Decimal.{parse_uint, atoi}
use gotchi.Strings.Base64.{decode}
use gotchi.Password.Config.{HashingConfig}
use gotchi.Password.Handler.LoginErrors.{HasherIsInternal}
use gotchi.Password.Hasher.{
  Argon2, HashingParams, no_params, or_error, set_pair, set_param, parse_pairs, parse_params,
  trim_prefix, check_algorithm, check_version, decoded_or, decode_parts, decode_phc, verify,
  verify_decoded, new_argon2id_hasher,
}

-- no error of the result is a PasswordError
pub record Quiet {ℓ} {A : Type ℓ} (r : Result A) : Type ℓ where
  pub at : (e : Error) → r ≡ err e → as_password_error e ≡ none

Quiet-ok {ℓ} : {A : Type ℓ} (a : A) → Quiet (ok a)
Quiet-ok a = record { at = λ e p. absurd (cc) }

Quiet-err {ℓ} : {A : Type ℓ} (e : Error) → as_password_error e ≡ none → Quiet {A = A} (err e)
Quiet-err {A = A} e q = record {
  at = λ f p. carry {A = A} (λ x. as_password_error x ≡ none) e f p q;
}

Quiet-bind {ℓ κ} :
    {A : Type ℓ} {B : Type κ} (r : Result A) (f : A → Result B)
    → Quiet r
    → ((a : A) → Quiet (f a))
    → Quiet (r >>= f)
Quiet-bind (ok a) f h k = k a
Quiet-bind (err e) f h k = Quiet-err e (h.at e refl)

Quiet-or_error {ℓ κ} :
    {A : Type ℓ} {B : Type κ} (text : String) (f : A → B) (o : Option A) → Quiet (or_error text f o)
unfolding as_password_error
Quiet-or_error text f none = Quiet-err (plain text) refl
Quiet-or_error text f (some a) = Quiet-ok (f a)

Quiet-if {ℓ} :
    {A : Type ℓ} (b : Bool) (r q : Result A) → Quiet r → Quiet q → Quiet (if b then r else q)
Quiet-if true r q h k = h
Quiet-if false r q h k = k

set_param-Quiet : (p : HashingParams) (key value : Text) → Quiet (set_param p key value)
unfolding set_param as_password_error
set_param-Quiet p key value =
    Quiet-if (same key (codes "m")) _ _
      (Quiet-or_error "invalid memory" (λ (v : ℕ). record p { memory = v }) (parse_uint 32 value))
      (Quiet-if (same key (codes "t")) _ _
        (Quiet-or_error "invalid iterations" (λ (v : ℕ). record p { iterations = v })
          (parse_uint 32 value))
        (Quiet-if (same key (codes "p")) _ _
          (Quiet-or_error "invalid parallelism" (λ (v : ℕ). record p { parallelism = v })
            (parse_uint 8 value))
          (Quiet-err (plain "unknown parameter") refl)))

set_pair-Quiet : (p : HashingParams) (o : Option (Text × Text)) → Quiet (set_pair p o)
unfolding set_pair as_password_error
set_pair-Quiet p none = Quiet-err (plain "invalid parameter") refl
set_pair-Quiet p (some (key, value)) = set_param-Quiet p key value

parse_pairs-Quiet : (p : HashingParams) (pairs : List Text) → Quiet (parse_pairs p pairs)
unfolding parse_pairs
parse_pairs-Quiet p [] = Quiet-ok p
parse_pairs-Quiet p (pair ∷ pairs) =
    Quiet-bind _ _ (set_pair-Quiet p (cut b'=' pair)) (λ q. parse_pairs-Quiet q pairs)

check_algorithm-Quiet : (t : Text) → Quiet (check_algorithm t)
unfolding as_password_error
check_algorithm-Quiet t =
    Quiet-if _ _ _ (Quiet-ok tt) (Quiet-err (plain "unsupported algorithm") refl)

check_version-Quiet : (v : ℕ) (o : Option ℤ) → Quiet (check_version v o)
unfolding as_password_error
check_version-Quiet v none = Quiet-err (plain "invalid version") refl
check_version-Quiet v (some n) =
    Quiet-if _ _ _ (Quiet-ok tt) (Quiet-err (plain "unsupported argon2 version") refl)

decoded_or-Quiet : (text : String) (o : Option Text) → Quiet (decoded_or text o)
unfolding as_password_error
decoded_or-Quiet text none = Quiet-err (wrap text (plain "illegal base64 data")) refl
decoded_or-Quiet text (some t) = Quiet-ok t

malformed-Quiet {ℓ} : {A : Type ℓ} → Quiet {A = A} (err (plain "invalid hash format"))
unfolding as_password_error
malformed-Quiet = Quiet-err (plain "invalid hash format") refl

decode_parts-Quiet : (v : ℕ) (parts : List Text) → Quiet (decode_parts v parts)
unfolding decode_parts parse_params
decode_parts-Quiet v (z ∷ (a ∷ (w ∷ (q ∷ (s ∷ (k ∷ [])))))) =
    Quiet-bind _ _ (check_algorithm-Quiet a) (λ u.
      Quiet-bind _ _ (check_version-Quiet v (atoi (trim_prefix w (codes "v=")))) (λ y.
        Quiet-bind _ _ (parse_pairs-Quiet no_params (split b',' q)) (λ p.
          Quiet-bind _ _ (decoded_or-Quiet "failed to decode salt" (decode s)) (λ t.
            Quiet-bind _ _ (decoded_or-Quiet "failed to decode hash" (decode k))
              (λ l. Quiet-ok _)))))
decode_parts-Quiet v [] = malformed-Quiet
decode_parts-Quiet v (a ∷ []) = malformed-Quiet
decode_parts-Quiet v (a ∷ (b ∷ [])) = malformed-Quiet
decode_parts-Quiet v (a ∷ (b ∷ (c ∷ []))) = malformed-Quiet
decode_parts-Quiet v (a ∷ (b ∷ (c ∷ (d ∷ [])))) = malformed-Quiet
decode_parts-Quiet v (a ∷ (b ∷ (c ∷ (d ∷ (f ∷ []))))) = malformed-Quiet
decode_parts-Quiet v (a ∷ (b ∷ (c ∷ (d ∷ (f ∷ (g ∷ (h ∷ parts))))))) = malformed-Quiet

wrapped-Quiet :
    (a : Argon2) (cfg : HashingConfig) (password : Text) (r : Result (HashingParams × Text × Text))
    → Quiet r
    → Quiet (verify_decoded a cfg password r)
unfolding verify_decoded as_password_error
wrapped-Quiet a cfg password (ok (p, s, k)) h = Quiet-ok _
wrapped-Quiet a cfg password (err e) h = Quiet-err (wrap "failed to decode hash" e) (h.at e refl)

-- no error of the hasher is a PasswordError
pub argon2id-HasherIsInternal :
    (a : Argon2) (cfg : HashingConfig) → HasherIsInternal (new_argon2id_hasher a cfg)
unfolding new_argon2id_hasher verify decode_phc
argon2id-HasherIsInternal a cfg password encoded e failed =
    (wrapped-Quiet a cfg password (decode_phc a.version encoded)
        (decode_parts-Quiet a.version (split b'$' encoded))).at
      e failed
