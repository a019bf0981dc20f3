-- ===== src/Password/Store.antt =====
-- auth/password/store.go: what the store is made of, and the parts that its operations share.
-- Logging is left out. The operations are in the modules below.
pub mod Register
pub mod Authenticate
pub mod Tokens
pub mod Parts
pub mod Intact
use text.Mathlib.Text.{◌==◌}
use gotchi.Base.{
  ℕ, ◌+◌, Bool, true, false, Option, none, some, List, [], ◌∷◌, Text, String, is_empty,
  if◌then◌else◌,
}
use gotchi.Errors.{Error, no_rows, pg_error, plain, wrap, password_error, Result, ok, err}
use gotchi.Database.{User}
use gotchi.Database.Connection.{M, pure, raise, lift, ◌>>=◌, ◌>>◌, count_hashing}
use gotchi.Identity.Store.{PostgresIdentityStore, NewIds}
use gotchi.Password.Config
use gotchi.Password.Config.{PasswordConfig}

-- The interface `Hasher`; `hash` is given the salt that it draws. `verify` returns whether the
-- password matches and whether the hash is to be renewed.
pub record Hasher : Type 0 where
  pub hash : Text → Text → Text
  pub verify : Text → Text → Result (Bool × Bool)

-- What the store calls of other packages: SHA-256, netip.ParseAddr, the tables of `unicode` and
-- base64.RawURLEncoding.
pub record Services : Type 0 where
  pub sha256_sum : Text → Text
  pub parse_addr : Text → Option Text
  pub unicode_lower : Text → Text
  pub encode_url : Text → Text

pub record PasswordIdentityStore : Type 0 where
  pub inner : PostgresIdentityStore
  pub hasher : Hasher
  pub services : Services
  pub cfg : PasswordConfig

-- The pool and the inner store may be nil.
unfoldable pub new_password_identity_store :
    Bool
    → Option PostgresIdentityStore
    → (PasswordConfig → Hasher)
    → Services
    → PasswordConfig
    → Result PasswordIdentityStore
new_password_identity_store false inner new_hasher sv cfg = err (plain "postgres pool is required")
new_password_identity_store true none new_hasher sv cfg = err (plain "identity store is required")
new_password_identity_store true (some inner) new_hasher sv cfg =
    let conf = Config.with_defaults cfg in
    ok (record { inner = inner; hasher = new_hasher conf; services = sv; cfg = conf })

-- What one operation draws at random; none where rand.Read fails.
pub record Draws : Type 0 where
  pub ids : NewIds
  pub salt : Option Text
  pub dummy_salt : Option Text
  pub token : Option Text

unfoldable pub hash_password : Hasher → Option Text → Text → M Text
hash_password h none password = raise (wrap "failed to generate salt" (plain "rand"))
hash_password h (some salt) password = do count_hashing; pure (h.hash salt password)

unfoldable pub verified : Result (Bool × Bool) → M (Bool × Bool)
verified (ok r) = do count_hashing; pure r
verified (err e) = raise e

unfoldable pub verify_password : Hasher → Text → Text → M (Bool × Bool)
verify_password h password encoded = verified (h.verify password encoded)

-- token.go
unfoldable pub generate_token : Services → Option Text → M (Text × Text)
generate_token sv none = raise (wrap "failed to generate token" (plain "rand"))
generate_token sv (some raw) =
    let plaintext = sv.encode_url raw in pure (plaintext, sv.sha256_sum plaintext)

abbrev pub add_username : Option Text → List Text
add_username none = []
add_username (some u) = if is_empty u then [] else u ∷ []

-- the context words of a user who exists
abbrev pub context_words : User → List Text
context_words u = u.email ∷ add_username u.username
