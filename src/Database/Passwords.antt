-- ===== src/Database/Passwords.antt =====
-- The queries of internal/db/password.sql.go. `now` is the server's NOW().
use gotchi.Base.{
  ℕ, ◌==◌, ◌&&◌, not, Bool, true, false, ℤ, ltb_ℤ, Option, none, some, ◌∷◌, Text, same, any, find?,
  count_by, update_by, remove_by, if◌then◌else◌,
}
use gotchi.Errors.{Result, ok, err, no_rows, pg_error}
use gotchi.Database.{
  TokenType, User, PasswordCredential, LoginAttempt, AuthToken, Database, is_type,
}
use gotchi.Database.Users.{one, has_user_id}

abbrev pub is_credential_of : ℕ → PasswordCredential → Bool
is_credential_of id c = c.user_id == id

unfoldable pub get_password_credential : ℕ → Database → Result PasswordCredential
get_password_credential id d = one (find? (is_credential_of id) d.credentials)

abbrev pub with_hash : Text → PasswordCredential → PasswordCredential
with_hash hash c = record c { password_hash = hash }

unfoldable pub upsert_password_credential :
    PasswordCredential → Database → Result (Unit {0} × Database)
upsert_password_credential new d =
    if not (any (has_user_id new.user_id) d.users)
    then err (pg_error "23503")
    else if any (is_credential_of new.user_id) d.credentials
    then ok (
      tt,
      record d { credentials = update_by (is_credential_of new.user_id) (λ _. new) d.credentials },
    )
    else ok (tt, record d { credentials = new ∷ d.credentials })

abbrev pub has_email : Text → Text → User → Bool
has_email email issuer u = same u.email email && same u.issuer issuer

unfoldable pub get_user_by_email_and_issuer : Text → Text → Database → Result User
get_user_by_email_and_issuer email issuer d = one (find? (has_email email issuer) d.users)

unfoldable pub get_user_by_id : ℕ → Database → Result User
get_user_by_id id d = one (find? (has_user_id id) d.users)

unfoldable pub record_login_attempt : LoginAttempt → Database → Result (Unit {0} × Database)
record_login_attempt a d =
    if any (has_user_id a.user_id) d.users
    then ok (tt, record d { attempts = a ∷ d.attempts })
    else err (pg_error "23503")

abbrev pub is_recent_failure : ℕ → ℤ → LoginAttempt → Bool
is_recent_failure id since a = a.user_id == id && (not a.success && ltb_ℤ since a.attempted_at)

unfoldable pub count_recent_failed_attempts : ℕ → ℤ → Database → Result ℕ
count_recent_failed_attempts id since d = ok (count_by (is_recent_failure id since) d.attempts)

unfoldable pub insert_auth_token : AuthToken → Database → Result (Unit {0} × Database)
insert_auth_token t d =
    if any (has_user_id t.user_id) d.users
    then ok (tt, record d { tokens = t ∷ d.tokens })
    else err (pg_error "23503")

abbrev pub is_open : AuthToken → Bool
is_open t = elim t.consumed_at [ none ↦ true | some _ ↦ false ]

abbrev pub is_usable : Text → TokenType → ℤ → AuthToken → Bool
is_usable hash type now t =
    same t.token_hash hash && (is_type t.token_type type && (is_open t && ltb_ℤ now t.expires_at))

abbrev pub consume_at : ℤ → AuthToken → AuthToken
consume_at now t = record t { consumed_at = some now }

abbrev pub consumed : Text → TokenType → ℤ → Database → Option AuthToken → Result (ℕ × Database)
consumed hash type now d none = err no_rows
consumed hash type now d (some t) =
    ok (
      t.user_id,
      record d { tokens = update_by (is_usable hash type now) (consume_at now) d.tokens },
    )

-- the UPDATE reaches every usable row; the caller reads the first one returned
unfoldable pub consume_auth_token : Text → TokenType → ℤ → Database → Result (ℕ × Database)
consume_auth_token hash type now d =
    consumed hash type now d (find? (is_usable hash type now) d.tokens)

abbrev pub is_open_of : ℕ → TokenType → AuthToken → Bool
is_open_of id type t = t.user_id == id && (is_type t.token_type type && is_open t)

unfoldable pub invalidate_user_tokens : ℕ → TokenType → ℤ → Database → Result (Unit {0} × Database)
invalidate_user_tokens id type now d =
    ok (tt, record d { tokens = update_by (is_open_of id type) (consume_at now) d.tokens })

unfoldable pub update_email_verified : ℕ → Database → Result (Unit {0} × Database)
update_email_verified id d = ok (
  tt,
  record d { users = update_by (has_user_id id) (λ u. record u { email_verified = true }) d.users },
)

unfoldable pub update_last_login_at : ℕ → ℤ → Database → Result (Unit {0} × Database)
update_last_login_at id now d = ok (
  tt,
  record d {
    users = update_by (has_user_id id) (λ u. record u { last_login_at = some now }) d.users;
  },
)

unfoldable pub update_password_hash : ℕ → Text → Database → Result (Unit {0} × Database)
update_password_hash id hash d =
    ok (
      tt,
      record d { credentials = update_by (is_credential_of id) (with_hash hash) d.credentials },
    )

unfoldable pub delete_password_credential : ℕ → Database → Result (Unit {0} × Database)
delete_password_credential id d =
    ok (tt, record d { credentials = remove_by (is_credential_of id) d.credentials })
