-- ===== src/Password/Store/Register.antt =====
-- `Register` and `RegisterWithEmailVerification` of auth/password/store.go.
pub mod Atomicity
use gotchi.Base.{
  ℕ, Bool, ◌||◌, Option, none, some, List, [], ◌∷◌, Text, is_empty, codes, ◌+ℤ◌, false,
  if◌then◌else◌,
}
use gotchi.Errors.{
  has_code, email_already_registered, password_policy_violation, detail, Error, wrap,
  password_error, Result, ok, err,
}
use gotchi.Database.{User, AuthToken, PasswordCredential, email_verification}
use gotchi.Database.Passwords
use gotchi.Database.Connection.{
  verification_mail, post, M, pure, raise, lift, attempt, or_wrap, ◌>>=◌, ◌>>◌, get_clock, exec,
  query, begin, commit, deferring_rollback,
}
use gotchi.Identity.Types.{Identity, UserRef}
use gotchi.Identity.Store.{resolve_or_provision_user}
use gotchi.Password.Policy.{validate}
use gotchi.Password.Store.{PasswordIdentityStore, Draws, hash_password, generate_token}

pub record RegisterRequest : Type 0 where
  pub email : Text
  pub password : Text
  pub username : Text
  pub name : Text

abbrev pub already_registered : Error
already_registered =
    password_error email_already_registered 409 (detail "an account with this email already exists")

abbrev pub words_of : RegisterRequest → List Text
words_of req = req.email ∷ (if is_empty req.username then [] else req.username ∷ [])

unfoldable pub refuse : Result PasswordCredential → M (Unit {0})
refuse (ok c) = raise already_registered
refuse (err e) = pure tt

-- an error of either lookup is ignored
unfoldable pub refuse_registered : Result User → M (Unit {0})
refuse_registered (err e) = pure tt
refuse_registered (ok user) = do
  credential ← attempt (query (Passwords.get_password_credential user.id))
  refuse credential

unfoldable pub created : Result UserRef → M UserRef
created (ok ref) = pure ref
created (err e) =
    if has_code "23505" e then raise already_registered else raise (wrap "failed to create user" e)

module _ (s : PasswordIdentityStore) (draws : Draws) where
  unfoldable pub identity_of : RegisterRequest → Identity
  identity_of req = record {
    issuer = s.cfg.issuer;
    subject = req.email;
    email = req.email;
    email_verified = false;
    username = req.username;
    name = req.name;
    preferred_username = [];
  }

  -- the body of the transaction
  unfoldable pub register_in_tx : RegisterRequest → Text → (UserRef → M (Unit {0})) → M UserRef
  register_in_tx req hash before_commit = do
    existing ← attempt (query (Passwords.get_user_by_email_and_issuer req.email s.cfg.issuer))
    refuse_registered existing
    resolved ← attempt (resolve_or_provision_user s.inner draws.ids (identity_of req))
    ref ← created resolved
    or_wrap "failed to store credential" (
        exec (
          Passwords.upsert_password_credential (record {
            user_id = ref.user_id;
            password_hash = hash;
            hash_algorithm = codes "argon2id";
          })))
    before_commit ref
    or_wrap "failed to commit registration" commit
    pure ref

  unfoldable pub register_with : RegisterRequest → (UserRef → M (Unit {0})) → M UserRef
  register_with req before_commit =
      if is_empty req.email || is_empty req.password
      then raise
          (password_error password_policy_violation 400 (detail "email and password are required"))
      else do
        lift (validate s.services.unicode_lower s.cfg.policy req.password (words_of req))
        hash ← or_wrap "failed to hash password" (hash_password s.hasher draws.salt req.password)
        or_wrap "failed to begin transaction" begin
        deferring_rollback (register_in_tx req hash before_commit)

  -- no hook
  unfoldable pub register : RegisterRequest → M UserRef
  register req = register_with req (λ _. pure tt)

  unfoldable pub initiate_email_verification : ℕ → M Text
  initiate_email_verification user_id = do
    now ← get_clock
    attempt (exec (Passwords.invalidate_user_tokens user_id email_verification now))
    token ← or_wrap "failed to generate token" (generate_token s.services draws.token)
    or_wrap "failed to store token" (
        exec (
          Passwords.insert_auth_token (record {
            user_id = user_id;
            token_hash = token.1;
            token_type = email_verification;
            expires_at = now +ℤ s.cfg.tokens.verification_token_expiry;
            consumed_at = none;
          })))
    pure token.0

  -- `send` may be nil; what it returns is the mail system's
  unfoldable pub deliver : Option (Text → Text → Result (Unit {0})) → Text → Text → M (Unit {0})
  deliver none email token = pure tt
  deliver (some send) email token =
      or_wrap "failed to send verification email"
        (post (verification_mail email token) (send email token))

  unfoldable pub send_verification :
      RegisterRequest → Option (Text → Text → Result (Unit {0})) → UserRef → M (Unit {0})
  send_verification req send ref = do
    token ←
        or_wrap "failed to generate verification token" (initiate_email_verification ref.user_id)
    deliver send req.email token

  -- The token that the hook stores in `verificationToken` is the one of this draw.
  abbrev pub plaintext : Option Text → Text
  plaintext none = []
  plaintext (some raw) = s.services.encode_url raw

  unfoldable pub register_with_email_verification :
      RegisterRequest → Option (Text → Text → Result (Unit {0})) → M (UserRef × Text)
  register_with_email_verification req send = do
    ref ← register_with req (send_verification req send)
    pure (ref, plaintext draws.token)
