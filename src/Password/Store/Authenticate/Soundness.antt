-- ===== src/Password/Store/Authenticate/Soundness.antt =====
-- What a successful login has checked.
use gotchi.Base.{
  ◌≡◌, refl, ◌∙◌, ap, Bool, true, false, ◌&&◌, not, Bool-cases, inl, inr, ◌-ℤ◌, ℕ, ℤ, Text, arith,
}
use gotchi.Errors.{Error, Result, ok, err}
use gotchi.Database.{Database, User, PasswordCredential}
use gotchi.Database.Passwords
use gotchi.Database.Connection.{
  Connection, pure, raise, attempt, or_wrap, ◌>>=◌, ◌>>◌, get_clock, exec, query, commit,
  deferring_rollback,
}
use gotchi.Database.Connection.Runs.{
  attempt_returns, clock_returns, or_wrap-query_tables, or_wrap-begin_tables, or_wrap-begin_clock,
  bind_returns, or_wrap_returns, query_returns, query_tables, query_clock,
}
use gotchi.Identity.Types.{UserRef}
use gotchi.Identity.Store.{ref_of, is_no_rows}
use gotchi.Password.Policy.{is_locked_out}
use gotchi.Password.Store.{PasswordIdentityStore, Draws, verify_password, verified}
use gotchi.Password.Store.Authenticate.{
  refuse, accept, check_password, authenticate_in_tx, authenticate_found, authenticate, rehash,
  dummy_hash, unverified, locked, bad_credentials,
}

-- The tables, the clock and the attempt that a login was granted for.
pub record Granted (s : PasswordIdentityStore) (d : Database) (now : ℤ) (password : Text)
    (user : User) : Type 0 where
  pub failed : ℕ
  pub counted :
      Passwords.count_recent_failed_attempts user.id (now -ℤ s.cfg.lockout.window) d ≡ ok failed
  pub not_locked : is_locked_out failed s.cfg.lockout ≡ false
  pub credential : PasswordCredential
  pub stored : Passwords.get_password_credential user.id d ≡ ok credential
  pub needs_rehash : Bool
  pub matched : s.hasher.verify password credential.password_hash ≡ ok (true, needs_rehash)
  pub email_ok : (s.cfg.require_email_verification && not user.email_verified) ≡ false

pub pair_path : (r : Bool × Bool) → r.0 ≡ true → r ≡ (true, r.1)
pair_path r h = ground arith

module _ (s : PasswordIdentityStore) (draws : Draws) where
  refuse_returns :
      (user : User) (ip : Text) (c : Connection) (ref : UserRef)
      → ¬ ((refuse s draws user ip c).0 ≡ ok ref)
  unfolding refuse ◌>>=◌
  refuse_returns user ip c ref h = cc

  unverified_returns :
      (c : Connection) (ref : UserRef) → ¬ (((do attempt commit; raise unverified) c).0 ≡ ok ref)
  unfolding ◌>>=◌
  unverified_returns c ref h = cc

  locked_returns :
      (c : Connection) (ref : UserRef) → ¬ (((do dummy_hash s draws; raise locked) c).0 ≡ ok ref)
  unfolding ◌>>=◌ dummy_hash
  locked_returns c ref h = cc

  unknown_returns :
      (c : Connection) (ref : UserRef)
      → ¬ (((do dummy_hash s draws; raise bad_credentials) c).0 ≡ ok ref)
  unfolding ◌>>=◌ dummy_hash
  unknown_returns c ref h = cc

  raise_returns : (e : Error) (c : Connection) (ref : UserRef) → ¬ ((raise e c).0 ≡ ok ref)
  unfolding raise
  raise_returns e c ref h = cc

  finish_returns :
      (user : User) (password : Text) (b : Bool) (c : Connection) (ref : UserRef)
      → ((do
        now ← get_clock
        attempt (exec (Passwords.update_last_login_at user.id now))
        or_wrap "failed to commit transaction" commit
        rehash s draws user password b
        pure (ref_of user))
          c).0
        ≡ ok ref
      → ref ≡ ref_of user
  unfolding pure
  finish_returns user password b c ref h =
      let (now, _, h1) = bind_returns _ _ c ref h in
      let (_, _, h2) = bind_returns _ _ _ ref h1 in
      let (_, _, h3) = bind_returns _ _ _ ref h2 in let (_, _, h4) = bind_returns _ _ _ ref h3 in cc

  accept_returns :
      (user : User) (password ip : Text) (b : Bool) (c : Connection) (ref : UserRef)
      → (accept s draws user password ip b c).0 ≡ ok ref
      → (ref ≡ ref_of user)
        × ((s.cfg.require_email_verification && not user.email_verified) ≡ false)
  unfolding accept
  accept_returns user password ip b c ref h =
      let (_, _, h1) = bind_returns _ _ c ref h in
      elim (Bool-cases (s.cfg.require_email_verification && not user.email_verified)) [
        | inl blocked ↦ absurd (unverified_returns _ ref (rw blocked at h1))
        | inr free ↦ (finish_returns user password b _ ref (rw free at h1), free)
      ]

  pub verify_password_returns :
      (password encoded : Text) (c : Connection) (r : Bool × Bool)
      → (verify_password s.hasher password encoded c).0 ≡ ok r
      → s.hasher.verify password encoded ≡ ok r
  unfolding verify_password verified ◌>>=◌
  verify_password_returns password encoded c r h = ground arith

  check_password_returns :
      (user : User) (password ip : Text) (found : Result PasswordCredential) (c : Connection)
      (ref : UserRef)
      → (check_password s draws user password ip found c).0 ≡ ok ref
      → (cred : PasswordCredential) × (b : Bool) × (found ≡ ok cred)
        × (s.hasher.verify password cred.password_hash ≡ ok (true, b))
        × (ref ≡ ref_of user)
        × ((s.cfg.require_email_verification && not user.email_verified) ≡ false)
  unfolding check_password raise
  check_password_returns user password ip (err e) c ref h = elim (Bool-cases (is_no_rows e)) [
    | inl missing ↦ cc
    | inr other ↦ cc
  ]
  check_password_returns user password ip (ok cred) c ref h =
      let (checked, p, h1) = bind_returns _ _ c ref h in
      let verdict =
        verify_password_returns password cred.password_hash c checked
          (or_wrap_returns _ _ c checked p) in
      elim (Bool-cases checked.0) [
        | inl matched ↦
            let (same_ref, free) =
              accept_returns user password ip checked.1 _ ref (rw matched at h1) in
            (cred, checked.1, refl, verdict ∙ ap ok (pair_path checked matched), same_ref, free)
        | inr wrong ↦ absurd (refuse_returns user ip _ ref (rw wrong at h1))
      ]

  authenticate_in_tx_returns :
      (user : User) (password ip : Text) (c : Connection) (ref : UserRef)
      → (authenticate_in_tx s draws user password ip c).0 ≡ ok ref
      → Granted s c.tables c.clock password user × (ref ≡ ref_of user)
  unfolding authenticate_in_tx
  authenticate_in_tx_returns user password ip c ref h =
      let (failed, p, h1) = bind_returns _ _ c ref (clock_returns _ c ref h) in
      let q = or_wrap_returns _ _ c failed p in
      elim (Bool-cases (is_locked_out failed s.cfg.lockout)) [
        | inl full ↦ absurd (locked_returns _ ref (rw full at h1))
        | inr still ↦
            let h2 = attempt_returns _ _ _ ref (rw still at h1) in
            let (cred, b, found, verdict, same_ref, free) =
              check_password_returns user password ip _ _ ref h2 in
            (
              record {
                failed = failed;
                counted = query_returns _ c failed q;
                not_locked = still;
                credential = cred;
                stored =
                    rw
                      (or_wrap-query_tables "failed to check lockout"
                        (Passwords.count_recent_failed_attempts user.id
                          (c.clock -ℤ s.cfg.lockout.window))
                        c)
                      at (query_returns _ _ cred found);
                needs_rehash = b;
                matched = verdict;
                email_ok = free;
              },
              same_ref,
            )
      ]

  authenticate_found_returns :
      (password ip : Text) (found : Result User) (c : Connection) (ref : UserRef)
      → (authenticate_found s draws password ip found c).0 ≡ ok ref
      → (user : User) × (found ≡ ok user)
        × Granted s c.tables c.clock password user
        × (ref ≡ ref_of user)
  unfolding authenticate_found deferring_rollback
  authenticate_found_returns password ip (err e) c ref h = elim (Bool-cases (is_no_rows e)) [
    | inl missing ↦ absurd (unknown_returns c ref (rw missing at h))
    | inr other ↦ absurd (raise_returns _ c ref (rw other at h))
  ]
  authenticate_found_returns password ip (ok user) c ref h =
      let (_, _, h1) = bind_returns _ _ c ref h in
      let (granted, same_ref) = authenticate_in_tx_returns user password ip _ ref h1 in
      (
        user,
        refl,
        rw
            (
              or_wrap-begin_tables "failed to begin transaction" c,
              or_wrap-begin_clock "failed to begin transaction" c,
            )
            at granted,
        same_ref,
      )

  -- Whatever statement fails, a login that succeeds has found the user by address and issuer,
  -- fewer recent failures than the lockout wants, a stored hash that the password matches, and a
  -- verified address where one is required. It returns that user.
  pub authenticate_sound :
      (email password ip : Text) (c : Connection) (ref : UserRef)
      → (authenticate s draws email password ip c).0 ≡ ok ref
      → (user : User) × (Passwords.get_user_by_email_and_issuer email s.cfg.issuer c.tables
          ≡ ok user)
        × Granted s c.tables c.clock password user
        × (ref ≡ ref_of user)
  unfolding authenticate
  authenticate_sound email password ip c ref h =
      let q = query (Passwords.get_user_by_email_and_issuer email s.cfg.issuer) in
      let (user, found, granted, same_ref) =
        authenticate_found_returns password ip _ _ ref (attempt_returns _ _ c ref h) in
      (
        user,
        query_returns _ c user found,
        rw
            (
              query_tables (Passwords.get_user_by_email_and_issuer email s.cfg.issuer) c,
              query_clock (Passwords.get_user_by_email_and_issuer email s.cfg.issuer) c,
            )
            at granted,
        same_ref,
      )
