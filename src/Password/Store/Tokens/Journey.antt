-- ===== src/Password/Store/Tokens/Journey.antt =====
-- A password that was forgotten: from InitiatePasswordReset to CompletePasswordReset.
use gotchi.Base.{
  ℕ, ◌+◌, ℤ, ◌+ℤ◌, ◌≡◌, refl, true, none, some, ◌∷◌, Text, same_self, any, find?, any_of_find?,
  ==_self, find?-update_by, update_by, ltb_ℤ,
}
use gotchi.Errors.{ok}
use gotchi.Database.{User, Database, PasswordCredential, AuthToken, password_reset}
use gotchi.Database.Users.{has_user_id}
use gotchi.Database.Passwords
use gotchi.Database.Passwords.{
  has_email, is_credential_of, is_open_of, is_usable, consume_at, with_hash,
}
use gotchi.Database.Connection.{◌>>=◌, exec}
use gotchi.Database.Connection.Calm.{idle}
use gotchi.Password.Policy.{validate}
use gotchi.Password.Store.{
  PasswordIdentityStore, Draws, hash_password, generate_token, context_words,
}
use gotchi.Password.Store.Tokens.{
  found_or, decide, set_password, reset_token_for, initiate_password_reset, complete_password_reset,
}

module _ (s : PasswordIdentityStore) (draws : Draws) (email raw : Text) (user : User) (d : Database)
    (now : ℤ) (n : ℕ) (known : find? (has_email email s.cfg.issuer) d.users ≡ some user)
    (drawn : draws.token ≡ some raw) where
  abbrev issued : AuthToken
  issued = record {
    user_id = user.id;
    token_hash = s.services.sha256_sum (s.services.encode_url raw);
    token_type = password_reset;
    expires_at = now +ℤ s.cfg.tokens.reset_token_expiry;
    consumed_at = none;
  }

  abbrev with_issued : Database
  with_issued = record d {
    tokens = issued ∷ update_by (is_open_of user.id password_reset) (consume_at now) d.tokens;
  }

  initiated :
      any (has_user_id user.id) d.users ≡ true
      → initiate_password_reset s draws email (idle d now n)
        ≡ (ok (s.services.encode_url raw), idle with_issued now n)
  unfolding initiate_password_reset reset_token_for generate_token ◌>>=◌ exec
      Passwords.get_user_by_email_and_issuer Passwords.invalidate_user_tokens
      Passwords.insert_auth_token
  initiated there = rw (known, drawn, there)

  module _ (password salt : Text) (later : Draws) (m : ℕ) (salted : later.salt ≡ some salt)
      (registered : find? (has_user_id user.id) d.users ≡ some user)
      (strong : validate s.services.unicode_lower s.cfg.policy password (context_words user)
        ≡ ok tt) where
    abbrev reset_tables : ℤ → Database
    reset_tables time = record d {
      tokens =
          update_by
            (is_usable (s.services.sha256_sum (s.services.encode_url raw)) password_reset time)
            (consume_at time) with_issued.tokens;
      credentials =
          update_by (is_credential_of user.id) (with_hash (s.hasher.hash salt password))
            d.credentials;
    }

    completed :
        (time : ℤ)
        → ltb_ℤ time (now +ℤ s.cfg.tokens.reset_token_expiry) ≡ true
        → complete_password_reset s later
            (s.services.encode_url raw)
            password
            (idle with_issued time m)
          ≡ (ok tt, idle (reset_tables time) time (m + 1))
    unfolding complete_password_reset found_or decide set_password hash_password ◌>>=◌ exec
        Passwords.consume_auth_token Passwords.get_user_by_id Passwords.update_password_hash
    completed time fresh = rw (
      same_self (s.services.sha256_sum (s.services.encode_url raw)),
      fresh,
      registered,
      strong,
      salted,
      same_self (s.services.sha256_sum (s.services.encode_url raw)),
      fresh,
    )

    -- Where no statement fails, the address is that of a registered user with a credential, and before
    -- the token expires a new password that the policy accepts comes with it: the token that
    -- InitiatePasswordReset returns lets CompletePasswordReset succeed, behind which the hash of the
    -- new password is the one that is stored for the user.
    pub reset_completes :
        (cred : PasswordCredential) (time : ℤ)
        → find? (is_credential_of user.id) d.credentials ≡ some cred
        → ltb_ℤ time (now +ℤ s.cfg.tokens.reset_token_expiry) ≡ true
        → let (token, c) = initiate_password_reset s draws email (idle d now n) in
          let (done, c') =
            complete_password_reset s later
              (s.services.encode_url raw)
              password
              (idle c.tables time m) in
          (token ≡ ok (s.services.encode_url raw))
          × (done ≡ ok tt)
          × (Passwords.get_password_credential user.id c'.tables
              ≡ ok (with_hash (s.hasher.hash salt password) cred))
    unfolding Passwords.get_password_credential
    reset_completes cred time has fresh =
        let there =
          any_of_find? (has_user_id user.id) (has_user_id user.id) d.users user registered
            (==_self user.id) in
        let stored =
          find?-update_by (is_credential_of user.id) (with_hash (s.hasher.hash salt password))
            d.credentials cred (λ c. refl) has in
        rw (initiated there, completed time fresh) (refl, refl, rw stored refl)
