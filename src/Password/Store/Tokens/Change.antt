-- ===== src/Password/Store/Tokens/Change.antt =====
-- ChangePassword of auth/password/store.go: what a change that succeeds has checked.
use mathlib.Core.Path.{◌∙◌, subst}
use gotchi.Base.{ap, ℕ, ◌≡◌, refl, Bool, true, false, Text, if◌then◌else◌, String}
use gotchi.Errors.{Result, ok, err, user_not_found, no_detail, password_error}
use gotchi.Database.{password_reset, User, PasswordCredential}
use gotchi.Database.Passwords
use gotchi.Database.Connection.{
  Connection, M, raise, lift, pure, attempt, or_wrap, exec, get_clock, query, ◌>>=◌, ◌>>◌,
}
use gotchi.Database.Connection.Runs.{bind_returns, or_wrap_returns, query_returns, query_tables}
use gotchi.Password.Policy.{validate}
use gotchi.Password.Store.{PasswordIdentityStore, Draws, verify_password, verified, context_words}
use gotchi.Password.Store.Authenticate.{bad_credentials}
use gotchi.Password.Store.Authenticate.Soundness.{verify_password_returns, pair_path}
use gotchi.Password.Store.Tokens.{found_or, set_password, change_password}
use gotchi.Password.Store.Tokens.Once.{found_or_returns, found_or-ok}

lift_returns :
    (r : Result (Unit {0})) (c : Connection) (a : Unit {0}) → (lift r c).0 ≡ ok a → r ≡ ok tt
unfolding lift
lift_returns r c a e = e

module _ (s : PasswordIdentityStore) (draws : Draws) where
  set_password_returns :
      (text : String) (id : ℕ) (password : Text) (c : Connection) (done : Unit {0})
      → (set_password s draws text id password c).0 ≡ ok done
      → (user : User) × (Passwords.get_user_by_id id c.tables ≡ ok user)
        × (validate s.services.unicode_lower s.cfg.policy password (context_words user) ≡ ok tt)
  unfolding set_password
  set_password_returns text id password c done e =
      let (user, found, rest) = bind_returns _ _ c done e in
      let (accepted, valid, rest') = bind_returns _ _ _ done rest in
      (
        user,
        query_returns _ c user (or_wrap_returns _ _ c user found),
        lift_returns _ _ accepted valid,
      )

  -- the old password is the stored one, and the policy accepts the new one for this user
  abbrev pub Checked : ℕ → Text → Text → Connection → Type 0
  Checked user_id old new c =
      (cred : PasswordCredential) × (needs_rehash : Bool) × (user : User)
      × (Passwords.get_password_credential user_id c.tables ≡ ok cred)
      × (s.hasher.verify old cred.password_hash ≡ ok (true, needs_rehash))
      × (Passwords.get_user_by_id user_id c.tables ≡ ok user)
      × (validate s.services.unicode_lower s.cfg.policy new (context_words user) ≡ ok tt)

  verified_tables : (r : Result (Bool × Bool)) (c : Connection) → (verified r c).1.tables ≡ c.tables
  unfolding verified ◌>>=◌
  verified_tables (ok r) c = refl
  verified_tables (err e) c = refl

  -- the part behind the test of the old password
  abbrev pub store_new : ℕ → Text → M (Unit {0})
  store_new user_id new = do
    set_password s draws "failed to hash new password" user_id new
    now ← get_clock
    attempt (exec (Passwords.invalidate_user_tokens user_id password_reset now))
    pure tt

  store_new_returns :
      (id : ℕ) (new : Text) (checked : Bool × Bool) (c : Connection) (done : Unit {0})
      → ((if checked.0 then store_new id new else raise bad_credentials) c).0 ≡ ok done
      → (checked.0 ≡ true)
        × ((user : User) × (Passwords.get_user_by_id id c.tables ≡ ok user)
            × (validate s.services.unicode_lower s.cfg.policy new (context_words user) ≡ ok tt))
  unfolding ◌>>=◌
  store_new_returns id new (false, b) c done e = absurd (cc)
  store_new_returns id new (true, b) c done e =
      let (stored, first, rest) =
        bind_returns (set_password s draws "failed to hash new password" id new) _ c done e in
      (refl, set_password_returns "failed to hash new password" id new c stored first)

  verify_tables :
      (text : String) (old hash : Text) (c : Connection)
      → (or_wrap text (verify_password s.hasher old hash) c).1.tables ≡ c.tables
  unfolding verify_password or_wrap
  verify_tables text old hash c = verified_tables (s.hasher.verify old hash) c

  -- A change of password that succeeds, whatever statement fails, has found a credential whose hash
  -- verifies the old password, and the policy accepts the new one with the words of the user.
  pub change_password_checks :
      (user_id : ℕ) (old new : Text) (c : Connection) (done : Unit {0})
      → (change_password s draws user_id old new c).0 ≡ ok done
      → Checked user_id old new c
  unfolding change_password
  change_password_checks user_id old new c done e =
      let (cred, found, rest) = bind_returns _ _ c done e in
      let credential = query (Passwords.get_password_credential user_id) in
      let missing = password_error user_not_found 404 no_detail in
      let held = found_or_returns missing "failed to fetch credential" credential c cred found in
      let c1 = (found_or missing "failed to fetch credential" credential c).1 in
      let (checked, verdict, rest') = bind_returns _ _ c1 done rest in
      let matched =
        verify_password_returns s draws old cred.password_hash c1 checked
          (or_wrap_returns _ _ c1 checked verdict) in
      let c2 =
        (or_wrap "failed to verify password" (verify_password s.hasher old cred.password_hash)
          c1).1 in
      let (right, policy) = store_new_returns user_id new checked c2 done rest' in
      let (user, known, valid) = policy in
      let same_tables =
        verify_tables _ old cred.password_hash c1
        ∙ ap (λ x. x.1.tables)
            (found_or-ok missing "failed to fetch credential" credential c cred held)
        ∙ query_tables _ c in
      (
        cred,
        checked.1,
        user,
        query_returns _ c cred held,
        matched ∙ ap ok (pair_path checked right),
        subst (λ d. Passwords.get_user_by_id user_id d ≡ ok user) same_tables known,
        valid,
      )
