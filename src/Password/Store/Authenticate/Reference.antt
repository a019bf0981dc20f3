-- ===== src/Password/Store/Authenticate/Reference.antt =====
-- What a login does where no statement fails: a reference without transactions, and the theorem
-- that `Authenticate` implements it, branch by branch.
use gotchi.Base.{
  ℕ, ◌+◌, ℤ, Bool-cases, inl, inr, ◌-ℤ◌, ◌≡◌, refl, Bool, true, false, ◌&&◌, not, if◌then◌else◌,
  Option, none, some, Text, ◌∷◌, any, find?, count_by, update_by, any_of_find?, ==_self, arith,
}
use gotchi.Errors.{Error, Result, ok, err, wrap}
use gotchi.Database.{Database, User, PasswordCredential}
use gotchi.Database.Users.{has_user_id, one}
use gotchi.Database.Passwords
use gotchi.Database.Passwords.{is_recent_failure, is_credential_of, has_email, with_hash}
use gotchi.Database.Connection.{
  Connection, ◌>>=◌, ◌>>◌, raise, undo, exec, finish, unchanged, begin, commit, rollback,
  deferring_rollback,
}
use gotchi.Database.Connection.Calm.{idle, inside}
use gotchi.Identity.Types.{UserRef}
use gotchi.Identity.Store.{ref_of}
use gotchi.Password.Policy.{is_locked_out}
use gotchi.Password.Store.{PasswordIdentityStore, Draws, hash_password, verify_password, verified}
use gotchi.Password.Store.Authenticate.{
  bad_credentials, locked, unverified, address_of, record_attempt, refuse, accept, check_password,
  authenticate_in_tx, authenticate_found, authenticate, rehash, store_rehash, dummy_hash,
}

module _ (s : PasswordIdentityStore) (draws : Draws) where
  -- the tables after an attempt was recorded
  abbrev pub with_attempt : User → Text → ℤ → Bool → Database → Database
  with_attempt user ip now success d = record d {
    attempts =
        record {
          user_id = user.id;
          attempted_at = now;
          ip_address = address_of s draws ip;
          success = success;
        }
        ∷ d.attempts;
  }

  record_calm :
      (user : User) (ip : Text) (success : Bool) (before d : Database) (now : ℤ) (n : ℕ)
      → any (has_user_id user.id) d.users ≡ true
      → record_attempt s draws user ip success (inside before d now n)
        ≡ (ok tt, inside before (with_attempt user ip now success d) now n)
  unfolding record_attempt ◌>>=◌ exec Passwords.record_login_attempt
  record_calm user ip success before d now n h = ground arith

  refuse_calm :
      (user : User) (ip : Text) (before d : Database) (now : ℤ) (n : ℕ)
      → any (has_user_id user.id) d.users ≡ true
      → refuse s draws user ip (inside before d now n)
        ≡ (err bad_credentials, idle (with_attempt user ip now false d) now n)
  unfolding refuse ◌>>=◌ commit
  refuse_calm user ip before d now n h = rw (record_calm user ip false before d now n h)

  abbrev pub seen : User → ℤ → Database → Database
  seen user now d = record d {
    users = update_by (has_user_id user.id) (λ u. record u { last_login_at = some now }) d.users;
  }

  -- the tables and the count of hashings after a login that was granted
  abbrev pub renewed : User → Text → Bool → Option Text → Database → Database
  renewed user password true (some salt) d = record d {
    credentials =
        update_by (is_credential_of user.id) (with_hash (s.hasher.hash salt password))
          d.credentials;
  }
  renewed user password true none d = d
  renewed user password false salt d = d

  abbrev pub renewals : Bool → Option Text → ℕ
  renewals true (some salt) = 1
  renewals true none = 0
  renewals false salt = 0

  rehash_calm :
      (user : User) (password : Text) (b : Bool) (d : Database) (now : ℤ) (n : ℕ)
      → rehash s draws user password b (idle d now n)
        ≡ (ok tt, idle (renewed user password b draws.salt d) now (n + renewals b draws.salt))
  unfolding rehash store_rehash hash_password ◌>>=◌ exec Passwords.update_password_hash
  rehash_calm user password b d now n = ground arith

  seen_calm :
      (user : User) (before d : Database) (now : ℤ) (n : ℕ)
      → exec (Passwords.update_last_login_at user.id now) (inside before d now n)
        ≡ (ok tt, inside before (seen user now d) now n)
  unfolding exec Passwords.update_last_login_at
  seen_calm user before d now n = refl

  abbrev pub blocked : User → Bool
  blocked user = s.cfg.require_email_verification && not user.email_verified

  abbrev pub after_accept : User → Text → Text → Bool → ℤ → Database → Database
  after_accept user password ip b now d =
      if blocked user
      then with_attempt user ip now true d
      else renewed user password b draws.salt (seen user now (with_attempt user ip now true d))

  accept_calm :
      (user : User) (password ip : Text) (b : Bool) (before d : Database) (now : ℤ) (n : ℕ)
      → any (has_user_id user.id) d.users ≡ true
      → accept s draws user password ip b (inside before d now n) ≡ (
        (if blocked user then err unverified else ok (ref_of user)),
        idle
            (after_accept user password ip b now d)
            now
            (if blocked user then n else n + renewals b draws.salt),
      )
  unfolding accept ◌>>=◌ commit
  accept_calm user password ip b before d now n h =
      rw (record_calm user ip true before d now n h) (elim (Bool-cases (blocked user)) [
        | inl stop ↦ rw stop
        | inr free ↦ rw (free, seen_calm, rehash_calm)
      ])

  -- What a login is about to do.
  pub data Verdict : Type 0 where
    no_password : Verdict
    corrupt : Error → Verdict
    mismatch : Verdict
    accepted : Bool → Verdict

  abbrev pub compared : Result (Bool × Bool) → Verdict
  compared (err e) = corrupt e
  compared (ok (false, b)) = mismatch
  compared (ok (true, b)) = accepted b

  abbrev pub judged : Text → Option PasswordCredential → Verdict
  judged password none = no_password
  judged password (some c) = compared (s.hasher.verify password c.password_hash)

  abbrev pub reply : User → Verdict → Result UserRef
  reply user no_password = err bad_credentials
  reply user (corrupt e) = err (wrap "failed to verify password" e)
  reply user mismatch = err bad_credentials
  reply user (accepted b) = if blocked user then err unverified else ok (ref_of user)

  -- the tables after it
  abbrev pub outcome : User → Text → Text → ℤ → Database → Verdict → Database
  outcome user password ip now d no_password = d
  outcome user password ip now d (corrupt e) = d
  outcome user password ip now d mismatch = with_attempt user ip now false d
  outcome user password ip now d (accepted b) = after_accept user password ip b now d

  -- how many hashings it costs
  abbrev pub cost : User → Verdict → ℕ → ℕ
  cost user no_password n = n
  cost user (corrupt e) n = n
  cost user mismatch n = n + 1
  cost user (accepted b) n = if blocked user then n + 1 else n + 1 + renewals b draws.salt

  compared_calm :
      (user : User) (password ip : Text) (cred : PasswordCredential) (r : Result (Bool × Bool))
      (d : Database) (now : ℤ) (n : ℕ)
      → s.hasher.verify password cred.password_hash ≡ r
      → any (has_user_id user.id) d.users ≡ true
      → deferring_rollback (check_password s draws user password ip (ok cred)) (inside d d now n)
        ≡ (
          reply user (compared r),
          idle (outcome user password ip now d (compared r)) now (cost user (compared r) n),
        )
  unfolding check_password verify_password verified ◌>>=◌ deferring_rollback rollback
  compared_calm user password ip cred (err e) d now n v h = rw v
  compared_calm user password ip cred (ok (false, b)) d now n v h =
      rw (v, refuse_calm user ip d d now (n + 1) h)
  compared_calm user password ip cred (ok (true, b)) d now n v h =
      rw (v, accept_calm user password ip b d d now (n + 1) h)

  found_calm :
      (user : User) (password ip : Text) (cred : Option PasswordCredential) (d : Database) (now : ℤ)
      (n : ℕ)
      → any (has_user_id user.id) d.users ≡ true
      → deferring_rollback (check_password s draws user password ip (one cred)) (inside d d now n)
        ≡ (
          reply user (judged password cred),
          idle
              (outcome user password ip now d (judged password cred))
              now
              (cost user (judged password cred) n),
        )
  unfolding check_password raise deferring_rollback rollback
  found_calm user password ip none d now n h = refl
  found_calm user password ip (some cred) d now n h =
      compared_calm user password ip cred _ d now n refl h

  abbrev pub dummies : Option Text → ℕ → ℕ
  dummies none n = n
  dummies (some salt) n = n + 1

  dummy_calm :
      (c : Connection)
      → (dummy_hash s draws c).1 ≡ record c { hashings = dummies draws.dummy_salt c.hashings }
  unfolding dummy_hash hash_password ◌>>=◌
  dummy_calm c = ground arith

  abbrev pub failures : User → ℤ → Database → ℕ
  failures user now d =
      count_by (is_recent_failure user.id (now -ℤ s.cfg.lockout.window)) d.attempts

  abbrev pub verdict : User → Text → Database → Verdict
  verdict user password d = judged password (find? (is_credential_of user.id) d.credentials)

  -- The reference: what `Authenticate` returns and leaves, by the user that the address finds.
  abbrev pub login : Text → Text → Database → ℤ → ℕ → Option User → Result UserRef × Connection
  login password ip d now n none = (err bad_credentials, idle d now (dummies draws.dummy_salt n))
  login password ip d now n (some user) =
      if is_locked_out (failures user now d) s.cfg.lockout
      then (err locked, idle d now (dummies draws.dummy_salt n))
      else (
        reply user (verdict user password d),
        idle (outcome user password ip now d (verdict user password d)) now
            (cost user (verdict user password d) n),
      )

  in_tx_step :
      (user : User) (password ip : Text) (d : Database) (now : ℤ) (n : ℕ)
      → authenticate_in_tx s draws user password ip (inside d d now n) ≡ (
          if is_locked_out (failures user now d) s.cfg.lockout
          then (do dummy_hash s draws; raise locked) (inside d d now n)
          else check_password s draws user password ip
              (one (find? (is_credential_of user.id) d.credentials))
              (inside d d now n))
  unfolding authenticate_in_tx ◌>>=◌ exec Passwords.count_recent_failed_attempts
      Passwords.get_password_credential
  in_tx_step user password ip d now n = ground arith

  locked_calm :
      (d : Database) (now : ℤ) (n : ℕ)
      → undo ((do dummy_hash s draws; raise {A = UserRef} locked) (inside d d now n))
        ≡ (err locked, idle d now (dummies draws.dummy_salt n))
  unfolding ◌>>=◌ rollback dummy_hash
  locked_calm d now n = rw (dummy_calm (inside d d now n))

  in_tx_calm :
      (user : User) (password ip : Text) (d : Database) (now : ℤ) (n : ℕ)
      → any (has_user_id user.id) d.users ≡ true
      → deferring_rollback (authenticate_in_tx s draws user password ip) (inside d d now n)
        ≡ login password ip d now n (some user)
  unfolding deferring_rollback
  in_tx_calm user password ip d now n h =
      rw (in_tx_step user password ip d now n)
        (elim (Bool-cases (is_locked_out (failures user now d) s.cfg.lockout)) [
          | inl full ↦ rw full (locked_calm d now n)
          | inr free ↦ rw free (
              found_calm user password ip (find? (is_credential_of user.id) d.credentials) d now n
                h)
        ])

  finish-one :
      (found : Option User) (d : Database) (now : ℤ) (n : ℕ)
      → finish (unchanged d (one found)) (idle d now n) ≡ (one found, idle d now n)
  finish-one none d now n = refl
  finish-one (some user) d now n = refl

  found_user_calm :
      (password ip : Text) (found : Option User) (d : Database) (now : ℤ) (n : ℕ)
      → ((user : User) → found ≡ some user → any (has_user_id user.id) d.users ≡ true)
      → authenticate_found s draws password ip (one found) (idle d now n)
        ≡ login password ip d now n found
  unfolding authenticate_found ◌>>=◌ begin dummy_hash
  found_user_calm password ip none d now n h = rw (dummy_calm (idle d now n))
  found_user_calm password ip (some user) d now n h =
      in_tx_calm user password ip d now n (h user refl)

  -- Where no statement fails, `Authenticate` answers, writes and hashes as the reference does: on
  -- every branch, for every address, password and table.
  pub authenticate-eq-login :
      (email password ip : Text) (d : Database) (now : ℤ) (n : ℕ)
      → authenticate s draws email password ip (idle d now n)
        ≡ login password ip d now n (find? (has_email email s.cfg.issuer) d.users)
  unfolding authenticate ◌>>=◌ exec Passwords.get_user_by_email_and_issuer
  authenticate-eq-login email password ip d now n =
      let found = find? (has_email email s.cfg.issuer) d.users in
      rw (finish-one found d now n) (
        found_user_calm password ip found d now n
          (λ user e. any_of_find? _ (has_user_id user.id) d.users user e (==_self user.id)))
