-- ===== src/Password/Store/Tokens/Once.antt =====
-- Reset and verification tokens of auth/password/store.go: none is taken twice.
use gotchi.Base.{ℕ, ℤ, leb_ℤ, ◌≡◌, ◌≢◌, true, Bool-cases, inl, inr, Text, String}
use gotchi.Errors.{Error, Result, ok, err}
use gotchi.Database.{Database, TokenType, password_reset, email_verification}
use gotchi.Database.Passwords
use gotchi.Database.Passwords.{is_usable, consume_at, consumed, consume_auth_token}
use gotchi.Database.Connection.{or_wrap, Connection, M, exec, raise, ◌>>=◌}
use gotchi.Database.Connection.Keeps.{Keeps, keeps_rules}
use gotchi.Database.Connection.Runs.{bind_returns, clock_returns}
use gotchi.Identity.Store.{is_no_rows}
use gotchi.Password.Store.{PasswordIdentityStore, Draws}
use gotchi.Password.Store.Tokens.Evolves.{Evolves, Evolves-Spent}
use gotchi.Password.Store.Tokens.Spent.{
  Spent, SpentOn, Spent-consume, consume-Spent, exec-Spent, query-Spent, hash_password-Spent,
}
use gotchi.Password.Store.Tokens.{
  verify_email, decide, found_or, bad_token, set_password, complete_password_reset,
}

module _ {ℓ} {A : Type ℓ} (missing : Error) (text : String) where
  decide_returns :
      (r : Result A) (c : Connection) (a : A) → (decide missing text r c).0 ≡ ok a → r ≡ ok a
  unfolding decide raise ◌>>=◌
  decide_returns (ok b) c a e = e
  decide_returns (err f) c a e = elim (Bool-cases (is_no_rows f)) [
    | inl absent ↦ absurd (let r = rw absent at e in cc)
    | inr other ↦ absurd (let r = rw other at e in cc)
  ]

  pub found_or_returns :
      (m : M A) (c : Connection) (a : A) → (found_or missing text m c).0 ≡ ok a → (m c).0 ≡ ok a
  unfolding found_or ◌>>=◌
  found_or_returns m c a e = decide_returns (m c).0 (m c).1 a e

  pub found_or-ok :
      (m : M A) (c : Connection) (a : A)
      → (m c).0 ≡ ok a
      → found_or missing text m c ≡ (ok a, (m c).1)
  unfolding found_or decide ◌>>=◌
  found_or-ok m c a e = rw e

module _ (s : PasswordIdentityStore) (draws : Draws) where
  update_password_hash_tokens :
      (id : ℕ) (hash : Text) (c : Database) (a : Unit {0}) (d : Database)
      → Passwords.update_password_hash id hash c ≡ ok (a, d)
      → d.tokens ≡ c.tokens
  unfolding Passwords.update_password_hash
  update_password_hash_tokens id hash c a d e = cc

  set_password-Spent :
      (hash : Text) (type : TokenType) (now : ℤ) (text : String) (id : ℕ) (password : Text)
      → Keeps (SpentOn hash type now) (set_password s draws text id password)
  unfolding set_password
  set_password-Spent hash type now text id password =
      search
        (keeps_rules, query-Spent, exec-Spent, hash_password-Spent, update_password_hash_tokens)
        depth 10

  -- A reset that finds its token leaves the token spent, from this moment on and whatever follows:
  -- also where the policy refuses the new password or a statement fails.
  pub complete_password_reset_spends :
      (token password : Text) (c : Connection) (id : ℕ)
      → (exec (consume_auth_token (s.services.sha256_sum token) password_reset c.clock) c).0 ≡ ok id
      → Spent
          (s.services.sha256_sum token)
          password_reset
          c.clock
          (complete_password_reset s draws token password c).1.tables.tokens
  unfolding complete_password_reset ◌>>=◌
  complete_password_reset_spends token password c id e =
      let hash = s.services.sha256_sum token in
      let consume = exec (consume_auth_token hash password_reset c.clock) in
      rw (found_or-ok bad_token "failed to consume token" consume c id e) (
        (set_password-Spent hash password_reset c.clock "failed to hash password" id password).at
          (consume c).1 (consume-Spent hash password_reset c.clock c id e))

  reset_takes :
      (token password : Text) (c : Connection) (done : Unit {0})
      → (complete_password_reset s draws token password c).0 ≡ ok done
      → (id : ℕ) × ((exec
            (consume_auth_token (s.services.sha256_sum token) password_reset c.clock)
            c).0
          ≡ ok id)
  unfolding complete_password_reset
  reset_takes token password c done e =
      let (id, found, rest) = bind_returns _ _ c done (clock_returns _ c done e) in
      (id, found_or_returns bad_token "failed to consume token" _ c id found)

  -- A reset token works once: after a reset that succeeded, no further call with the same token and
  -- any password succeeds, at the same time or later, whatever statements have run in between: any
  -- may have issued tokens of another hash, consumed or deleted tokens, or changed other tables.
  pub complete_password_reset_once :
      (token first second : Text) (c c' : Connection) (done again : Unit {0})
      → (complete_password_reset s draws token first c).0 ≡ ok done
      → Evolves
          (s.services.sha256_sum token)
          (complete_password_reset s draws token first c).1.tables
          c'.tables
      → leb_ℤ c.clock c'.clock ≡ true
      → (complete_password_reset s draws token second c').0 ≢ ok again
  complete_password_reset_once token first second c c' done again e between after e' =
      let hash = s.services.sha256_sum token in
      let (id, taken) = reset_takes token first c done e in
      let (id', taken_again) = reset_takes token second c' again e' in
      Spent-consume hash password_reset c.clock c' id' after
        (Evolves-Spent hash password_reset c.clock _ c'.tables between
          (complete_password_reset_spends token first c id taken))
        taken_again

  update_email_verified_tokens :
      (id : ℕ) (c : Database) (a : Unit {0}) (d : Database)
      → Passwords.update_email_verified id c ≡ ok (a, d)
      → d.tokens ≡ c.tokens
  unfolding Passwords.update_email_verified
  update_email_verified_tokens id c a d e = cc

  store_verified-Spent :
      (hash : Text) (type : TokenType) (now : ℤ) (id : ℕ)
      → Keeps
          (SpentOn hash type now)
          (or_wrap "failed to update email verified" (exec (Passwords.update_email_verified id)))
  store_verified-Spent hash type now id =
      search (keeps_rules, exec-Spent, update_email_verified_tokens)

  verify_email_spends :
      (token : Text) (c : Connection) (id : ℕ)
      → (exec (consume_auth_token (s.services.sha256_sum token) email_verification c.clock) c).0
        ≡ ok id
      → Spent
          (s.services.sha256_sum token)
          email_verification
          c.clock
          (verify_email s draws token c).1.tables.tokens
  unfolding verify_email ◌>>=◌
  verify_email_spends token c id e =
      let hash = s.services.sha256_sum token in
      let consume = exec (consume_auth_token hash email_verification c.clock) in
      rw (found_or-ok bad_token "failed to consume token" consume c id e) (
        (store_verified-Spent hash email_verification c.clock id).at (consume c).1
          (consume-Spent hash email_verification c.clock c id e))

  verify_takes :
      (token : Text) (c : Connection) (done : Unit {0})
      → (verify_email s draws token c).0 ≡ ok done
      → (id : ℕ) × ((exec
            (consume_auth_token (s.services.sha256_sum token) email_verification c.clock)
            c).0
          ≡ ok id)
  unfolding verify_email
  verify_takes token c done e =
      let (id, found, rest) = bind_returns _ _ c done (clock_returns _ c done e) in
      (id, found_or_returns bad_token "failed to consume token" _ c id found)

  -- A verification token works once: after a call of VerifyEmail that succeeded, no further call
  -- with the same token succeeds, at the same time or later, whatever statements have run in between.
  pub verify_email_once :
      (token : Text) (c c' : Connection) (done again : Unit {0})
      → (verify_email s draws token c).0 ≡ ok done
      → Evolves (s.services.sha256_sum token) (verify_email s draws token c).1.tables c'.tables
      → leb_ℤ c.clock c'.clock ≡ true
      → (verify_email s draws token c').0 ≢ ok again
  verify_email_once token c c' done again e between after e' =
      let (id, taken) = verify_takes token c done e in
      let (id', taken_again) = verify_takes token c' again e' in
      let hash = s.services.sha256_sum token in
      Spent-consume hash email_verification c.clock c' id' after
        (Evolves-Spent hash email_verification c.clock _ c'.tables between
          (verify_email_spends token c id taken))
        taken_again
