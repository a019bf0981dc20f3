-- ===== src/Password/Store/Authenticate.antt =====
-- `Authenticate` of auth/password/store.go.
pub mod Soundness
pub mod Reference
pub mod Lockout
use gotchi.Base.{
  Bool, true, false, ◌&&◌, not, ◌-ℤ◌, Option, none, some, Text, is_empty, codes, if◌then◌else◌,
}
use gotchi.Errors.{
  invalid_credentials, account_locked, email_not_verified, no_detail, Error, wrap, password_error,
  Result, ok, err,
}
use gotchi.Database.{User, PasswordCredential}
use gotchi.Database.Passwords
use gotchi.Database.Connection.{
  M, pure, raise, attempt, or_wrap, ◌>>=◌, ◌>>◌, get_clock, exec, query, begin, commit,
  deferring_rollback,
}
use gotchi.Identity.Types.{UserRef}
use gotchi.Identity.Store.{is_no_rows, ref_of}
use gotchi.Password.Policy.{is_locked_out}
use gotchi.Password.Store.{PasswordIdentityStore, Draws, hash_password, verify_password}

abbrev pub bad_credentials : Error
bad_credentials = password_error invalid_credentials 401 no_detail

abbrev pub locked : Error
locked = password_error account_locked 423 no_detail

abbrev pub unverified : Error
unverified = password_error email_not_verified 403 no_detail

module _ (s : PasswordIdentityStore) (draws : Draws) where
  unfoldable pub dummy_hash : M (Result Text)
  dummy_hash = attempt (hash_password s.hasher draws.dummy_salt (codes "dummy-password-for-timing"))

  abbrev pub address_of : Text → Option Text
  address_of ip = if is_empty ip then none else s.services.parse_addr ip

  unfoldable pub record_attempt : User → Text → Bool → M (Unit {0})
  record_attempt user ip success = do
    now ← get_clock
    exec (
        Passwords.record_login_attempt (record {
          user_id = user.id;
          attempted_at = now;
          ip_address = address_of ip;
          success = success;
        }))

  unfoldable pub refuse : User → Text → M UserRef
  refuse user ip = do attempt (record_attempt user ip false); attempt commit; raise bad_credentials

  unfoldable pub store_rehash : User → Result Text → M (Unit {0})
  store_rehash user (err e) = pure tt
  store_rehash user (ok hash) = do
    attempt (exec (Passwords.update_password_hash user.id hash))
    pure tt

  -- behind the commit, and never fatal
  unfoldable pub rehash : User → Text → Bool → M (Unit {0})
  rehash user password false = pure tt
  rehash user password true = do
    hash ← attempt (hash_password s.hasher draws.salt password)
    store_rehash user hash

  unfoldable pub accept : User → Text → Text → Bool → M UserRef
  accept user password ip needs_rehash = do
    attempt (record_attempt user ip true)
    if s.cfg.require_email_verification && not user.email_verified
        then (do attempt commit; raise unverified)
        else do
          now ← get_clock
          attempt (exec (Passwords.update_last_login_at user.id now))
          or_wrap "failed to commit transaction" commit
          rehash user password needs_rehash
          pure (ref_of user)

  unfoldable pub check_password : User → Text → Text → Result PasswordCredential → M UserRef
  check_password user password ip (err e) =
      if is_no_rows e then raise bad_credentials else raise (wrap "failed to fetch credential" e)
  check_password user password ip (ok cred) = do
    checked ←
        or_wrap "failed to verify password" (verify_password s.hasher password cred.password_hash)
    if checked.0 then accept user password ip checked.1 else refuse user ip

  -- the body of the transaction
  unfoldable pub authenticate_in_tx : User → Text → Text → M UserRef
  authenticate_in_tx user password ip = do
    now ← get_clock
    failed ←
        or_wrap "failed to check lockout"
          (query (Passwords.count_recent_failed_attempts user.id (now -ℤ s.cfg.lockout.window)))
    if is_locked_out failed s.cfg.lockout then (do dummy_hash; raise locked) else do
      credential ← attempt (query (Passwords.get_password_credential user.id))
      check_password user password ip credential

  unfoldable pub authenticate_found : Text → Text → Result User → M UserRef
  authenticate_found password ip (err e) =
      if is_no_rows e
      then (do dummy_hash; raise bad_credentials)
      else raise (wrap "failed to query user" e)
  authenticate_found password ip (ok user) = do
    or_wrap "failed to begin transaction" begin
    deferring_rollback (authenticate_in_tx user password ip)

  unfoldable pub authenticate : Text → Text → Text → M UserRef
  authenticate email password ip = do
    found ← attempt (query (Passwords.get_user_by_email_and_issuer email s.cfg.issuer))
    authenticate_found password ip found
