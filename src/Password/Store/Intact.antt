-- ===== src/Password/Store/Intact.antt =====
-- Every operation of auth/password/store.go, and `ResolveOrProvisionUser` of auth/postgres_store.go,
-- keeps the tables well formed, wherever a statement fails.
use gotchi.Base.{ℕ, Bool, true, false, Option, Text, String}
use gotchi.Errors.{Error, Result, ok, err}
use gotchi.Database.{User, Database, PasswordCredential}
use gotchi.Database.Connection.{M, exec}
use gotchi.Database.Connection.Keeps.{Keeps, Keeps-bind, Keeps-attempt, keeps_rules}
use gotchi.Database.WellFormed.Users.{Sound}
use gotchi.Database.WellFormed.Connections.{
  Intact, exec-Intact, begin-Intact, commit-Intact, deferring_rollback-Intact, count_hashing-Intact,
  post-Intact,
}
use gotchi.Identity.Types.{Identity, UserRef}
use gotchi.Identity.Store.{PostgresIdentityStore, NewIds, resolve_or_provision_user}
use gotchi.Identity.Invariant.{resolve_or_provision_user-Keeps}
use gotchi.Password.Store.{PasswordIdentityStore, Draws}
use gotchi.Password.Store.Register.{
  RegisterRequest, register_in_tx, register_with, register, register_with_email_verification,
  initiate_email_verification,
}
use gotchi.Password.Store.Authenticate.{
  dummy_hash, record_attempt, store_rehash, rehash, accept, check_password, authenticate_in_tx,
  authenticate_found, authenticate,
}
use gotchi.Password.Store.Authenticate
use gotchi.Password.Store.Tokens.{
  decide, found_or, set_password, change_password, reset_token_for, initiate_password_reset,
  complete_password_reset, verify_email,
}
use gotchi.Password.Store.Parts.{
  statements, refuse_registered-Keeps, created-Keeps, generate_token-Keeps,
  initiate_email_verification-Keeps, send_verification-Keeps, hash_password-Keeps,
  verify_password-Keeps,
}

run-Intact : (A : Type 0) (q : Database → Result (A × Database)) → Sound q → Keeps Intact (exec q)
run-Intact A q s = exec-Intact q s

pub resolve_or_provision_user-Intact :
    (s : PostgresIdentityStore) (new : NewIds) (i : Identity)
    → Keeps Intact (resolve_or_provision_user s new i)
resolve_or_provision_user-Intact = resolve_or_provision_user-Keeps Intact run-Intact

ruleset rules = (statements, run-Intact, begin-Intact, commit-Intact, deferring_rollback-Intact)

module _ (s : PasswordIdentityStore) (draws : Draws) where
  pub initiate_email_verification-Intact :
      (id : ℕ) → Keeps Intact (initiate_email_verification s draws id)
  initiate_email_verification-Intact = initiate_email_verification-Keeps Intact run-Intact s draws

  register_in_tx-Intact :
      (req : RegisterRequest) (hash : Text) (hook : UserRef → M (Unit {0}))
      → ((ref : UserRef) → Keeps Intact (hook ref))
      → Keeps Intact (register_in_tx s draws req hash hook)
  unfolding register_in_tx
  register_in_tx-Intact req hash hook k =
      search
        (
          rules,
          refuse_registered-Keeps Intact run-Intact,
          resolve_or_provision_user-Intact,
          created-Keeps Intact run-Intact,
          k,
        )
        depth 12

  register_with-Intact :
      (req : RegisterRequest) (hook : UserRef → M (Unit {0}))
      → ((ref : UserRef) → Keeps Intact (hook ref))
      → Keeps Intact (register_with s draws req hook)
  unfolding register_with
  register_with-Intact req hook k =
      search (rules, hash_password-Keeps Intact count_hashing-Intact, register_in_tx-Intact, k)
        depth 10

  pub register-Intact : (req : RegisterRequest) → Keeps Intact (register s draws req)
  unfolding register
  register-Intact req = register_with-Intact req _ (λ ref. search keeps_rules)

  pub register_with_email_verification-Intact :
      (req : RegisterRequest) (send : Option (Text → Text → Result (Unit {0})))
      → Keeps Intact (register_with_email_verification s draws req send)
  unfolding register_with_email_verification
  register_with_email_verification-Intact req send =
      search
        (keeps_rules, register_with-Intact, send_verification-Keeps Intact post-Intact run-Intact)

  dummy_hash-Intact : Keeps Intact (dummy_hash s draws)
  unfolding dummy_hash
  dummy_hash-Intact = search (rules, hash_password-Keeps Intact count_hashing-Intact)

  record_attempt-Intact :
      (u : User) (ip : Text) (success : Bool) → Keeps Intact (record_attempt s draws u ip success)
  unfolding record_attempt
  record_attempt-Intact u ip success = search rules

  refuse-Intact : (u : User) (ip : Text) → Keeps Intact (Authenticate.refuse s draws u ip)
  unfolding Authenticate.refuse
  refuse-Intact u ip = search (rules, record_attempt-Intact)

  store_rehash-Intact : (u : User) (r : Result Text) → Keeps Intact (store_rehash s draws u r)
  unfolding store_rehash
  store_rehash-Intact u (ok hash) = search rules
  store_rehash-Intact u (err e) = search rules

  rehash-Intact : (u : User) (p : Text) (b : Bool) → Keeps Intact (rehash s draws u p b)
  unfolding rehash
  rehash-Intact u p true =
      search (rules, hash_password-Keeps Intact count_hashing-Intact, store_rehash-Intact)
  rehash-Intact u p false = search rules

  accept-Intact : (u : User) (p ip : Text) (b : Bool) → Keeps Intact (accept s draws u p ip b)
  unfolding accept
  accept-Intact u p ip b = search (rules, record_attempt-Intact, rehash-Intact) depth 12

  check_password-Intact :
      (u : User) (p ip : Text) (r : Result PasswordCredential)
      → Keeps Intact (check_password s draws u p ip r)
  unfolding check_password
  check_password-Intact u p ip (err e) = search rules
  check_password-Intact u p ip (ok cred) =
      search
        (rules, verify_password-Keeps Intact count_hashing-Intact, accept-Intact, refuse-Intact)

  authenticate_in_tx-Intact :
      (u : User) (p ip : Text) → Keeps Intact (authenticate_in_tx s draws u p ip)
  unfolding authenticate_in_tx
  authenticate_in_tx-Intact u p ip =
      search (rules, dummy_hash-Intact, check_password-Intact) depth 10

  authenticate_found-Intact :
      (p ip : Text) (r : Result User) → Keeps Intact (authenticate_found s draws p ip r)
  unfolding authenticate_found
  authenticate_found-Intact p ip (err e) = search (rules, dummy_hash-Intact)
  authenticate_found-Intact p ip (ok u) = search (rules, authenticate_in_tx-Intact)

  pub authenticate-Intact : (email p ip : Text) → Keeps Intact (authenticate s draws email p ip)
  unfolding authenticate
  authenticate-Intact email p ip = search (rules, authenticate_found-Intact)

decide-Intact {ℓ} :
    {A : Type ℓ} (missing : Error) (text : String) (r : Result A)
    → Keeps Intact (decide missing text r)
unfolding decide
decide-Intact missing text (ok a) = search keeps_rules
decide-Intact missing text (err e) = search keeps_rules

found_or-Intact {ℓ} :
    {A : Type ℓ} (missing : Error) (text : String) (m : M A)
    → Keeps Intact m
    → Keeps Intact (found_or missing text m)
unfolding found_or
found_or-Intact missing text m k = Keeps-bind _ _ (Keeps-attempt m k) (decide-Intact missing text)

module _ (s : PasswordIdentityStore) (draws : Draws) where
  set_password-Intact :
      (text : String) (id : ℕ) (p : Text) → Keeps Intact (set_password s draws text id p)
  unfolding set_password
  set_password-Intact text id p =
      search (rules, hash_password-Keeps Intact count_hashing-Intact) depth 10

  pub change_password-Intact :
      (id : ℕ) (old new : Text) → Keeps Intact (change_password s draws id old new)
  unfolding change_password
  change_password-Intact id old new =
      search
        (
          rules,
          found_or-Intact,
          verify_password-Keeps Intact count_hashing-Intact,
          set_password-Intact,
        )
        depth 10

  reset_token_for-Intact : (r : Result User) → Keeps Intact (reset_token_for s draws r)
  unfolding reset_token_for
  reset_token_for-Intact (err e) = search rules
  reset_token_for-Intact (ok u) = search (rules, generate_token-Keeps Intact run-Intact) depth 10

  pub initiate_password_reset-Intact :
      (email : Text) → Keeps Intact (initiate_password_reset s draws email)
  unfolding initiate_password_reset
  initiate_password_reset-Intact email = search (rules, reset_token_for-Intact)

  pub complete_password_reset-Intact :
      (token p : Text) → Keeps Intact (complete_password_reset s draws token p)
  unfolding complete_password_reset
  complete_password_reset-Intact token p =
      search (rules, found_or-Intact, set_password-Intact) depth 8

  pub verify_email-Intact : (token : Text) → Keeps Intact (verify_email s draws token)
  unfolding verify_email
  verify_email-Intact token = search (rules, found_or-Intact) depth 8
