-- ===== src/Password/Store/Tokens.antt =====
-- The other operations of auth/password/store.go: changing and resetting a password, and verifying
-- an email address.
pub mod Spent
pub mod Evolves
pub mod Once
pub mod Tests
pub mod Change
pub mod Journey
use gotchi.Base.{ℕ, ◌+ℤ◌, none, Text, String, [], if◌then◌else◌}
use gotchi.Errors.{
  token_invalid, user_not_found, no_detail, Error, wrap, password_error, Result, ok, err,
}
use gotchi.Database.{User, password_reset, email_verification}
use gotchi.Database.Passwords
use gotchi.Database.Connection.{
  M, pure, raise, lift, attempt, or_wrap, ◌>>=◌, ◌>>◌, get_clock, exec, query,
}
use gotchi.Identity.Store.{is_no_rows}
use gotchi.Password.Policy.{validate}
use gotchi.Password.Store.{
  PasswordIdentityStore, Draws, hash_password, verify_password, generate_token, context_words,
}
use gotchi.Password.Store.Authenticate.{bad_credentials}

abbrev pub bad_token : Error
bad_token = password_error token_invalid 400 no_detail

module _ {ℓ} {A : Type ℓ} where
  -- an answer of its own for pgx.ErrNoRows, and a wrapped error for any other
  unfoldable pub decide : Error → String → Result A → M A
  decide missing text (ok a) = pure a
  decide missing text (err e) = if is_no_rows e then raise missing else raise (wrap text e)

  unfoldable pub found_or : Error → String → M A → M A
  found_or missing text m = do r ← attempt m; decide missing text r

module _ (s : PasswordIdentityStore) (draws : Draws) where
  -- the part that changing and resetting share: look up the user, check the policy, hash, store
  unfoldable pub set_password : String → ℕ → Text → M (Unit {0})
  set_password text user_id password = do
    user ← or_wrap "failed to fetch user" (query (Passwords.get_user_by_id user_id))
    lift (validate s.services.unicode_lower s.cfg.policy password (context_words user))
    hash ← or_wrap text (hash_password s.hasher draws.salt password)
    or_wrap "failed to update password" (exec (Passwords.update_password_hash user_id hash))

  unfoldable pub change_password : ℕ → Text → Text → M (Unit {0})
  change_password user_id old new = do
    cred ←
        found_or (password_error user_not_found 404 no_detail) "failed to fetch credential"
          (query (Passwords.get_password_credential user_id))
    checked ← or_wrap "failed to verify password" (verify_password s.hasher old cred.password_hash)
    if checked.0
        then (do
          set_password "failed to hash new password" user_id new
          now ← get_clock
          attempt (exec (Passwords.invalidate_user_tokens user_id password_reset now))
          pure tt)
        else raise bad_credentials

  unfoldable pub reset_token_for : Result User → M Text
  reset_token_for (err e) = pure []
  reset_token_for (ok user) = do
    now ← get_clock
    attempt (exec (Passwords.invalidate_user_tokens user.id password_reset now))
    token ← or_wrap "failed to generate token" (generate_token s.services draws.token)
    or_wrap "failed to store token" (
        exec (
          Passwords.insert_auth_token (record {
            user_id = user.id;
            token_hash = token.1;
            token_type = password_reset;
            expires_at = now +ℤ s.cfg.tokens.reset_token_expiry;
            consumed_at = none;
          })))
    pure token.0

  -- any error of the lookup gives the empty token
  unfoldable pub initiate_password_reset : Text → M Text
  initiate_password_reset email = do
    found ← attempt (query (Passwords.get_user_by_email_and_issuer email s.cfg.issuer))
    reset_token_for found

  unfoldable pub complete_password_reset : Text → Text → M (Unit {0})
  complete_password_reset token password = do
    now ← get_clock
    user_id ←
        found_or bad_token "failed to consume token"
          (exec (Passwords.consume_auth_token (s.services.sha256_sum token) password_reset now))
    set_password "failed to hash password" user_id password

  unfoldable pub verify_email : Text → M (Unit {0})
  verify_email token = do
    now ← get_clock
    user_id ←
        found_or bad_token "failed to consume token"
          (exec (Passwords.consume_auth_token (s.services.sha256_sum token) email_verification now))
    or_wrap "failed to update email verified" (exec (Passwords.update_email_verified user_id))
