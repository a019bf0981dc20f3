-- ===== src/Password/Store/Parts.antt =====
-- The parts of auth/password/store.go that end no transaction keep every predicate of a connection
-- that its statements, its hashings and its mails keep.
use gotchi.Base.{ℕ, Option, none, some, Text, Bool}
use gotchi.Errors.{Result, ok, err}
use gotchi.Database.{Database, User, PasswordCredential}
use gotchi.Database.Connection.{Connection, Mail, exec, count_hashing, post}
use gotchi.Database.Connection.Keeps.{Keeps, keeps_rules}
use gotchi.Database.WellFormed.Users.{Sound, user_statements}
use gotchi.Database.WellFormed.Passwords.{password_statements}
use gotchi.Identity.Types.{UserRef}
use gotchi.Password.Store.{
  PasswordIdentityStore, Draws, Services, Hasher, hash_password, generate_token, verified,
  verify_password,
}
use gotchi.Password.Store.Register.{
  RegisterRequest, refuse, refuse_registered, created, initiate_email_verification, deliver,
  send_verification,
}

pub ruleset statements = (keeps_rules, user_statements, password_statements)

module _ (P : Connection → Type 0)
    (run : (A : Type 0) (q : Database → Result (A × Database)) → Sound q → Keeps P (exec q)) where
  refuse-Keeps : (r : Result PasswordCredential) → Keeps P (refuse r)
  unfolding refuse
  refuse-Keeps (ok c) = search keeps_rules
  refuse-Keeps (err e) = search keeps_rules

  pub refuse_registered-Keeps : (r : Result User) → Keeps P (refuse_registered r)
  unfolding refuse_registered
  refuse_registered-Keeps (err e) = search keeps_rules
  refuse_registered-Keeps (ok u) = search (statements, run, refuse-Keeps)

  pub created-Keeps : (r : Result UserRef) → Keeps P (created r)
  unfolding created
  created-Keeps (ok u) = search keeps_rules
  created-Keeps (err e) = search keeps_rules

  pub generate_token-Keeps : (sv : Services) (raw : Option Text) → Keeps P (generate_token sv raw)
  unfolding generate_token
  generate_token-Keeps sv none = search keeps_rules
  generate_token-Keeps sv (some raw) = search keeps_rules

  pub initiate_email_verification-Keeps :
      (s : PasswordIdentityStore) (draws : Draws) (id : ℕ)
      → Keeps P (initiate_email_verification s draws id)
  unfolding initiate_email_verification
  initiate_email_verification-Keeps s draws id =
      search (statements, run, generate_token-Keeps) depth 10

module _ (P : Connection → Type 0)
    (posting : (m : Mail) (r : Result (Unit {0})) → Keeps P (post m r)) where
  deliver-Keeps :
      (s : PasswordIdentityStore) (draws : Draws) (send : Option (Text → Text → Result (Unit {0})))
      (email token : Text)
      → Keeps P (deliver s draws send email token)
  unfolding deliver
  deliver-Keeps s draws none email token = search keeps_rules
  deliver-Keeps s draws (some send) email token = search (keeps_rules, posting)

  pub send_verification-Keeps :
      (run : (A : Type 0) (q : Database → Result (A × Database)) → Sound q → Keeps P (exec q))
      (s : PasswordIdentityStore) (draws : Draws) (req : RegisterRequest)
      (send : Option (Text → Text → Result (Unit {0}))) (ref : UserRef)
      → Keeps P (send_verification s draws req send ref)
  unfolding send_verification
  send_verification-Keeps run s draws req send ref =
      search (keeps_rules, initiate_email_verification-Keeps P run, deliver-Keeps)

module _ (P : Connection → Type 0) (hashing : Keeps P count_hashing) where
  pub hash_password-Keeps :
      (h : Hasher) (salt : Option Text) (p : Text) → Keeps P (hash_password h salt p)
  unfolding hash_password
  hash_password-Keeps h none p = search keeps_rules
  hash_password-Keeps h (some salt) p = search (keeps_rules, hashing)

  verified-Keeps : (r : Result (Bool × Bool)) → Keeps P (verified r)
  unfolding verified
  verified-Keeps (ok r) = search (keeps_rules, hashing)
  verified-Keeps (err e) = search keeps_rules

  pub verify_password-Keeps :
      (h : Hasher) (p encoded : Text) → Keeps P (verify_password h p encoded)
  unfolding verify_password
  verify_password-Keeps h p encoded = verified-Keeps (h.verify p encoded)
