-- ===== src/Password/Handler/LoginErrors.antt =====
-- Which errors Authenticate ends with, and so which answers LoginHandler gives.
use gotchi.Base.{
  String, ℕ, ℤ, ◌≡◌, refl, Bool, true, false, inl, inr, ◌⊎◌, Option, none, some, Text, find?,
  count_by,
}
use gotchi.Errors.{
  no_rows, Sentinel, invalid_credentials, account_locked, email_not_verified, Error, wrap,
  as_password_error, Result, ok, err,
}
use gotchi.Database.{User, PasswordCredential}
use gotchi.Database.Passwords
use gotchi.Database.Users.{one}
use gotchi.Database.Connection.{attempt, ◌>>=◌, begin, commit, query}
use gotchi.Database.Connection.Fails.{
  Fails, Internal, Fails-pure, Fails-raise, Fails-attempt, Fails-or_wrap, Fails-if,
  Fails-deferring_rollback, Fails-of_Internal, Fails-get_clock, Fails-bind, Fails-attempt_bind,
  carry, query-Internal, begin-Internal, commit-Internal,
}
use gotchi.Password.Store.{PasswordIdentityStore, Hasher, Draws, verify_password, verified}
use gotchi.Password.Store.Authenticate.{
  dummy_hash, refuse, rehash, accept, check_password, authenticate_in_tx, authenticate_found,
  authenticate, bad_credentials, locked, unverified, store_rehash,
}

-- the PasswordErrors of a login
abbrev pub LoginError : Option (Sentinel × ℕ) → Type 0
LoginError o =
    (o ≡ none)
    ⊎ ((o ≡ some (invalid_credentials, 401))
        ⊎ ((o ≡ some (account_locked, 423)) ⊎ (o ≡ some (email_not_verified, 403))))

one-Internal {ℓ} :
    {A : Type ℓ} (o : Option A) (e : Error) → one o ≡ err e → as_password_error e ≡ none
unfolding as_password_error
one-Internal {A = A} none e p = carry {A = A} (λ x. as_password_error x ≡ none) no_rows e p refl
one-Internal (some a) e p = absurd (cc)

ok-Internal {ℓ} : {A : Type ℓ} (a : A) (e : Error) → ok a ≡ err e → as_password_error e ≡ none
ok-Internal a e p = absurd (cc)

get_user-Internal :
    (email issuer : Text) → Internal (query (Passwords.get_user_by_email_and_issuer email issuer))
unfolding Passwords.get_user_by_email_and_issuer
get_user-Internal email issuer = query-Internal _ (λ d. one-Internal (find? _ d.users))

get_credential-Internal : (id : ℕ) → Internal (query (Passwords.get_password_credential id))
unfolding Passwords.get_password_credential
get_credential-Internal id = query-Internal _ (λ d. one-Internal (find? _ d.credentials))

count-Internal :
    (id : ℕ) (since : ℤ) → Internal (query (Passwords.count_recent_failed_attempts id since))
unfolding Passwords.count_recent_failed_attempts
count-Internal id since = query-Internal _ (λ d. ok-Internal (count_by _ d.attempts))

-- no PasswordError comes from the hasher
abbrev pub HasherIsInternal : Hasher → Type 0
HasherIsInternal h = (p t : Text) (e : Error) → h.verify p t ≡ err e → as_password_error e ≡ none

verified-Internal :
    (r : Result (Bool × Bool))
    → ((e : Error) → r ≡ err e → as_password_error e ≡ none)
    → Internal (verified r)
unfolding verified ◌>>=◌
verified-Internal (ok r) h = record { at = λ c e p. absurd (cc) }
verified-Internal (err e) h = Fails-raise e (h e refl)

ruleset login_rules =
    (Fails-pure, Fails-raise, Fails-attempt, Fails-or_wrap, Fails-if, Fails-get_clock, Fails-bind)

-- the parts of a login, for the errors below
module _ (s : PasswordIdentityStore) (draws : Draws) (hasher : HasherIsInternal s.hasher) where
  internal : LoginError none
  internal = inl refl

  bad : LoginError (as_password_error bad_credentials)
  unfolding as_password_error
  bad = inr (inl refl)

  refuse-Fails : (user : User) (ip : Text) → Fails LoginError (refuse s draws user ip)
  unfolding refuse
  refuse-Fails user ip = search (login_rules, bad)

  late : LoginError (as_password_error unverified)
  unfolding as_password_error
  late = inr (inr (inr refl))

  full : LoginError (as_password_error locked)
  unfolding as_password_error
  full = inr (inr (inl refl))

  commit-Fails : Fails LoginError commit
  commit-Fails = Fails-of_Internal internal commit commit-Internal

  begin-Fails : Fails LoginError begin
  begin-Fails = Fails-of_Internal internal begin begin-Internal

  store_rehash-Fails :
      (user : User) (r : Result Text) → Fails LoginError (store_rehash s draws user r)
  unfolding store_rehash
  store_rehash-Fails user (ok hash) = search login_rules
  store_rehash-Fails user (err e) = search login_rules

  rehash-Fails :
      (user : User) (password : Text) (b : Bool) → Fails LoginError (rehash s draws user password b)
  unfolding rehash
  rehash-Fails user password false = search login_rules
  rehash-Fails user password true = search (login_rules, store_rehash-Fails)

  accept-Fails :
      (user : User) (password ip : Text) (b : Bool)
      → Fails LoginError (accept s draws user password ip b)
  unfolding accept
  accept-Fails user password ip b = search (login_rules, late, commit-Fails, rehash-Fails) depth 10

  verify-Fails : (password hash : Text) → Fails LoginError (verify_password s.hasher password hash)
  unfolding verify_password
  verify-Fails password hash =
      Fails-of_Internal internal _
        (verified-Internal (s.hasher.verify password hash) (hasher password hash))

  internal_wrap :
      (text : String) (e : Error)
      → as_password_error e ≡ none
      → LoginError (as_password_error (wrap text e))
  unfolding as_password_error
  internal_wrap text e h = inl h

  dummy_hash-Fails : Fails LoginError (dummy_hash s draws)
  unfolding dummy_hash
  dummy_hash-Fails = search login_rules

  count-Fails :
      (id : ℕ) (since : ℤ)
      → Fails LoginError (query (Passwords.count_recent_failed_attempts id since))
  count-Fails id since = Fails-of_Internal internal _ (count-Internal id since)

  check_password-Fails :
      (user : User) (password ip : Text) (r : Result PasswordCredential)
      → ((e : Error) → r ≡ err e → as_password_error e ≡ none)
      → Fails LoginError (check_password s draws user password ip r)
  unfolding check_password
  check_password-Fails user password ip (ok cred) h =
      search (login_rules, verify-Fails, accept-Fails, refuse-Fails)
  check_password-Fails user password ip (err e) h =
      search (login_rules, bad, internal_wrap "failed to fetch credential" e (h e refl))

  check_credential-Fails :
      (user : User) (password ip : Text)
      → Fails LoginError (do
        credential ← attempt (query (Passwords.get_password_credential user.id))
        check_password s draws user password ip credential)
  check_credential-Fails user password ip =
      Fails-attempt_bind _ _ (get_credential-Internal user.id)
        (check_password-Fails user password ip)

  authenticate_in_tx-Fails :
      (user : User) (password ip : Text)
      → Fails LoginError (authenticate_in_tx s draws user password ip)
  unfolding authenticate_in_tx
  authenticate_in_tx-Fails user password ip =
      search (login_rules, count-Fails, full, dummy_hash-Fails, check_credential-Fails) depth 10

  authenticate_found-Fails :
      (password ip : Text) (r : Result User)
      → ((e : Error) → r ≡ err e → as_password_error e ≡ none)
      → Fails LoginError (authenticate_found s draws password ip r)
  unfolding authenticate_found
  authenticate_found-Fails password ip (ok user) h =
      search (login_rules, begin-Fails, Fails-deferring_rollback, authenticate_in_tx-Fails)
  authenticate_found-Fails password ip (err e) h =
      search (login_rules, dummy_hash-Fails, bad, internal_wrap "failed to query user" e (h e refl))

  pub authenticate-Fails :
      (email password ip : Text) → Fails LoginError (authenticate s draws email password ip)
  unfolding authenticate
  authenticate-Fails email password ip =
      Fails-attempt_bind _ _ (get_user-Internal email s.cfg.issuer)
        (authenticate_found-Fails password ip)
