-- ===== src/Database/WellFormed/Passwords.antt =====
-- The statements of internal/db/password.sql.go keep the promises of the tables.
use gotchi.Base.{
  ℕ, ℤ, ◌≡◌, refl, ◌∙◌, Bool, true, Bool-cases, inl, inr, Option, none, some, List, ◌∷◌, any, find?,
  update_by, remove_by, All, Once, All-imp, All-update_by, any-update_by, Once-update_by,
  Once-remove_by, All-remove_by, Text, arith,
}
use gotchi.Database.{TokenType, User, PasswordCredential, LoginAttempt, AuthToken, Database}
use gotchi.Database.Users.{has_user_id}
use gotchi.Database.Passwords.{
  is_credential_of, is_usable, is_open_of, consume_at, consumed, with_hash,
  upsert_password_credential, record_login_attempt, insert_auth_token, consume_auth_token,
  invalidate_user_tokens, update_email_verified, update_last_login_at, update_password_hash,
  delete_password_credential,
}
use gotchi.Database.WellFormed.{
  Known, same_id, same_identifier, same_address, same_owner, IsWellFormed,
}
use gotchi.Database.WellFormed.Users.{Sound, Fine}

-- An update of users that leaves alone what makes them another.
module _ (q : User → Bool) (f : User → User)
    (id : (u : User) (n : ℕ) → has_user_id n (f u) ≡ has_user_id n u)
    (id_left : (u v : User) → same_id (f u) v ≡ same_id u v)
    (id_right : (u v : User) → same_id u (f v) ≡ same_id u v)
    (identifier_left : (u v : User) → same_identifier (f u) v ≡ same_identifier u v)
    (identifier_right : (u v : User) → same_identifier u (f v) ≡ same_identifier u v)
    (address_left : (u v : User) → same_address (f u) v ≡ same_address u v)
    (address_right : (u v : User) → same_address u (f v) ≡ same_address u v) where
  Known-update_by : (users : List User) (n : ℕ) → Known users n → Known (update_by q f users) n
  Known-update_by users n h = any-update_by (has_user_id n) q f users (λ u. id u n) ∙ h

  touch-IsWellFormed :
      (d : Database) → IsWellFormed d → IsWellFormed (record d { users = update_by q f d.users })
  touch-IsWellFormed d w =
      let keep = Known-update_by d.users in
      record {
        users =
            Once-update_by same_id q f d.users (λ u v e. id_right u v) (λ u v e. id_left u v)
              w.users;
        identifiers =
            Once-update_by same_identifier q f d.users (λ u v e. identifier_right u v)
              (λ u v e. identifier_left u v) w.identifiers;
        addresses =
            Once-update_by same_address q f d.users (λ u v e. address_right u v)
              (λ u v e. address_left u v) w.addresses;
        tenants = w.tenants;
        memberships = w.memberships;
        credentials = w.credentials;
        members = All-imp _ _ d.memberships (λ m. keep m.user_id) w.members;
        member_tenants = w.member_tenants;
        credential_owners = All-imp _ _ d.credentials (λ c. keep c.user_id) w.credential_owners;
        attempt_owners = All-imp _ _ d.attempts (λ a. keep a.user_id) w.attempt_owners;
        token_owners = All-imp _ _ d.tokens (λ t. keep t.user_id) w.token_owners;
      }

pub update_email_verified-Sound : (id : ℕ) → Sound (update_email_verified id)
unfolding update_email_verified
update_email_verified-Sound id = record {
  at =
      touch-IsWellFormed (has_user_id id) (λ u. record u { email_verified = true }) (λ u n. refl)
        (λ u v. refl) (λ u v. refl) (λ u v. refl) (λ u v. refl) (λ u v. refl) (λ u v. refl);
}

pub update_last_login_at-Sound : (id : ℕ) (now : ℤ) → Sound (update_last_login_at id now)
unfolding update_last_login_at
update_last_login_at-Sound id now = record {
  at =
      touch-IsWellFormed (has_user_id id) (λ u. record u { last_login_at = some now }) (λ u n. refl)
        (λ u v. refl) (λ u v. refl) (λ u v. refl) (λ u v. refl) (λ u v. refl) (λ u v. refl);
}

with_tokens :
    (ts : List AuthToken) (d : Database)
    → All (λ t. Known d.users t.user_id) ts
    → IsWellFormed d
    → IsWellFormed (record d { tokens = ts })
with_tokens ts d owned w = record {
  users = w.users;
  identifiers = w.identifiers;
  addresses = w.addresses;
  tenants = w.tenants;
  memberships = w.memberships;
  credentials = w.credentials;
  members = w.members;
  member_tenants = w.member_tenants;
  credential_owners = w.credential_owners;
  attempt_owners = w.attempt_owners;
  token_owners = owned;
}

with_attempts :
    (attempts : List LoginAttempt) (d : Database)
    → All (λ a. Known d.users a.user_id) attempts
    → IsWellFormed d
    → IsWellFormed (record d { attempts = attempts })
with_attempts attempts d owned w = record {
  users = w.users;
  identifiers = w.identifiers;
  addresses = w.addresses;
  tenants = w.tenants;
  memberships = w.memberships;
  credentials = w.credentials;
  members = w.members;
  member_tenants = w.member_tenants;
  credential_owners = w.credential_owners;
  attempt_owners = owned;
  token_owners = w.token_owners;
}

with_credentials :
    (cs : List PasswordCredential) (d : Database)
    → Once same_owner cs
    → All (λ c. Known d.users c.user_id) cs
    → IsWellFormed d
    → IsWellFormed (record d { credentials = cs })
with_credentials cs d once owned w = record {
  users = w.users;
  identifiers = w.identifiers;
  addresses = w.addresses;
  tenants = w.tenants;
  memberships = w.memberships;
  credentials = once;
  members = w.members;
  member_tenants = w.member_tenants;
  credential_owners = owned;
  attempt_owners = w.attempt_owners;
  token_owners = w.token_owners;
}

consume_by :
    (q : AuthToken → Bool) (now : ℤ) (d : Database)
    → IsWellFormed d
    → IsWellFormed (record d { tokens = update_by q (consume_at now) d.tokens })
consume_by q now d w =
    with_tokens (update_by q (consume_at now) d.tokens) d
      (All-update_by _ q (consume_at now) d.tokens (λ t h. h) w.token_owners) w

pub invalidate_user_tokens-Sound :
    (id : ℕ) (type : TokenType) (now : ℤ) → Sound (invalidate_user_tokens id type now)
unfolding invalidate_user_tokens
invalidate_user_tokens-Sound id type now = record { at = consume_by (is_open_of id type) now }

consumed-Fine :
    (hash : Text) (type : TokenType) (now : ℤ) (d : Database) (r : Option AuthToken)
    → IsWellFormed d
    → Fine (consumed hash type now d r)
consumed-Fine hash type now d none w = tt
consumed-Fine hash type now d (some t) w = consume_by (is_usable hash type now) now d w

pub consume_auth_token-Sound :
    (hash : Text) (type : TokenType) (now : ℤ) → Sound (consume_auth_token hash type now)
unfolding consume_auth_token
consume_auth_token-Sound hash type now = record {
  at = λ d w. consumed-Fine hash type now d (find? (is_usable hash type now) d.tokens) w;
}

pub insert_auth_token-Sound : (t : AuthToken) → Sound (insert_auth_token t)
unfolding insert_auth_token
insert_auth_token-Sound t = record {
  at = λ d w. elim (Bool-cases (any (has_user_id t.user_id) d.users)) [
    | inl user ↦ rw user (with_tokens (t ∷ d.tokens) d (user, w.token_owners) w)
    | inr stranger ↦ rw stranger tt
  ];
}

pub record_login_attempt-Sound : (a : LoginAttempt) → Sound (record_login_attempt a)
unfolding record_login_attempt
record_login_attempt-Sound a = record {
  at = λ d w. elim (Bool-cases (any (has_user_id a.user_id) d.users)) [
    | inl user ↦ rw user (with_attempts (a ∷ d.attempts) d (user, w.attempt_owners) w)
    | inr stranger ↦ rw stranger tt
  ];
}

same_owner-right :
    (c new old : PasswordCredential)
    → is_credential_of new.user_id old ≡ true
    → same_owner c new ≡ same_owner c old
same_owner-right c new old h = ground arith

same_owner-left :
    (new old c : PasswordCredential)
    → is_credential_of new.user_id old ≡ true
    → same_owner new c ≡ same_owner old c
same_owner-left new old c h = ground arith

-- A user's credential is replaced where it stands.
replace-IsWellFormed :
    (new : PasswordCredential) (d : Database)
    → IsWellFormed d
    → Known d.users new.user_id
    → IsWellFormed (record d {
      credentials = update_by (is_credential_of new.user_id) (λ _. new) d.credentials;
    })
replace-IsWellFormed new d w user =
    let q = is_credential_of new.user_id in
    with_credentials (update_by q (λ _. new) d.credentials) d
      (Once-update_by same_owner q (λ _. new) d.credentials (λ c old. same_owner-right c new old)
        (λ old c. same_owner-left new old c) w.credentials)
      (All-update_by _ q (λ _. new) d.credentials (λ c h. user) w.credential_owners) w

pub upsert_password_credential-Sound :
    (new : PasswordCredential) → Sound (upsert_password_credential new)
unfolding upsert_password_credential
upsert_password_credential-Sound new = record {
  at = λ d w. elim (Bool-cases (any (has_user_id new.user_id) d.users)) [
    | inr stranger ↦ rw stranger tt
    | inl user ↦ elim (Bool-cases (any (is_credential_of new.user_id) d.credentials)) [
      | inl old ↦ rw (user, old) (replace-IsWellFormed new d w user)
      | inr free ↦
          rw (user, free)
            (with_credentials (new ∷ d.credentials) d (free, w.credentials)
              (user, w.credential_owners) w)
    ]
  ];
}

pub update_password_hash-Sound : (id : ℕ) (hash : Text) → Sound (update_password_hash id hash)
unfolding update_password_hash
update_password_hash-Sound id hash = record {
  at = λ d w.
      let q = is_credential_of id in
      with_credentials (update_by q (with_hash hash) d.credentials) d
        (Once-update_by same_owner q (with_hash hash) d.credentials (λ x y e. refl) (λ x y e. refl)
          w.credentials)
        (All-update_by _ q (with_hash hash) d.credentials (λ c h. h) w.credential_owners) w;
}

pub delete_password_credential-Sound : (id : ℕ) → Sound (delete_password_credential id)
unfolding delete_password_credential
delete_password_credential-Sound id = record {
  at = λ d w.
      let q = is_credential_of id in
      with_credentials (remove_by q d.credentials) d
        (Once-remove_by same_owner q d.credentials w.credentials)
        (All-remove_by _ q d.credentials w.credential_owners) w;
}

pub ruleset password_statements = (
  delete_password_credential-Sound, upsert_password_credential-Sound, record_login_attempt-Sound,
  insert_auth_token-Sound, consume_auth_token-Sound, invalidate_user_tokens-Sound,
  update_email_verified-Sound, update_last_login_at-Sound, update_password_hash-Sound,
)
