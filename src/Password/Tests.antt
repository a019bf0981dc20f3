-- ===== src/Password/Tests.antt =====
-- Runs on the fixture, and the theorems at inputs that meet their hypotheses.
use gotchi.Base.{
  pos, ◌-ℤ◌, ◌+ℤ◌, Option, ◌≡◌, refl, false, some, none, [], Text, codes, same, find?,
}
use gotchi.Errors.{has_code, Error, Result, ok, err, plain, wrap}
use gotchi.Database.Passwords
use gotchi.Database.Users
use gotchi.Strings.{to_lower, contains, has_prefix, has_control}
use gotchi.Database.Passwords.{has_email, is_credential_of}
use gotchi.Database.{User, Database, empty}
use gotchi.Database.WellFormed.{IsWellFormed}
use gotchi.Password.Reach.{taken, Call, Reachable, admitted, HasTenant, reachable-IsWellFormed}
use gotchi.Database.Connection.{
  Connection, exec, ◌>>=◌, begin, commit, rollback, deferring_rollback,
}
use gotchi.Database.Connection.Calm.{idle}
use gotchi.Identity.Types.{Identity}
use gotchi.Identity.Store.{
  NewIds, ref_of, resolve_or_provision_user, resolve, provision, list_memberships, some_membership,
  first_tenant_or_create, first_or_create, create_tenant, create_membership, get_tenant_display,
}
use gotchi.Password.Fixture.{toy_store, toy_draws, ann, tables}
use gotchi.Password.Policy.{is_locked_out, validate, mentions}
use gotchi.Password.Store.{hash_password, verify_password, verified, generate_token}
use gotchi.Password.Store.Register.{
  RegisterRequest, register, register_with, register_in_tx, refuse_registered, refuse, created,
  identity_of, already_registered, register_with_email_verification, send_verification,
  initiate_email_verification, deliver,
}
use gotchi.Password.Store.Register.Atomicity.{
  register_atomic, register_with_email_verification_atomic,
}
use gotchi.Password.Store.Authenticate.{authenticate, bad_credentials, locked}
use gotchi.Password.Store.Authenticate.Soundness.{Granted, authenticate_sound}
use gotchi.Password.Store.Authenticate.Reference.{authenticate-eq-login, with_attempt}
use gotchi.Password.Store.Authenticate.Lockout.{
  Guessing, insist, lockout_after_guesses, unknown_like_wrong,
}

-- what a run of the password store computes with
running : Unit {0}
unfolding ◌>>=◌ exec begin commit rollback deferring_rollback same ◌-ℤ◌ ◌+ℤ◌ is_locked_out validate
    mentions to_lower contains has_prefix has_control hash_password verify_password verified
    register register_with register_in_tx refuse_registered refuse created identity_of has_code
    register_with_email_verification send_verification initiate_email_verification deliver
    generate_token resolve_or_provision_user resolve provision list_memberships some_membership
    first_tenant_or_create first_or_create create_tenant create_membership get_tenant_display
    Passwords.get_user_by_email_and_issuer Passwords.get_password_credential
    Passwords.upsert_password_credential Passwords.insert_auth_token
    Passwords.invalidate_user_tokens Users.get_user_by_identifier Users.insert_user
    Users.list_memberships Users.join_tenants Users.get_first_tenant Users.get_tenant_by_id
    Users.upsert_membership
running = tt

abbrev start : Connection
start = idle tables (pos 1000) 0

abbrev right : Text
right = codes "pw"

abbrev wrong : Text
wrong = codes "no"

abbrev ann_again : RegisterRequest
ann_again = record { email = codes "ann@x"; password = codes "secret"; username = []; name = [] }

abbrev bob : RegisterRequest
bob = record { email = codes "bob@x"; password = codes "secret"; username = []; name = [] }

refused : (register toy_store toy_draws ann_again start).0 ≡ err already_registered
unfolding running
refused = refl

registered :
    (register toy_store toy_draws bob start).0
    ≡ ok (record { user_id = 41; issuer = codes "local"; subject = codes "bob@x" })
unfolding running
registered = refl

abbrev no_mail : Option (Text → Text → Result (Unit {0}))
no_mail = some (λ _ _. err (plain "no mail"))

abbrev not_sent : Error
not_sent = wrap "failed to send verification email" (plain "no mail")

undelivered :
    (register_with_email_verification toy_store toy_draws bob no_mail start).0 ≡ err not_sent
unfolding running
undelivered = refl

register_atomic_example : (register toy_store toy_draws ann_again start).1.tables ≡ tables
register_atomic_example =
    register_atomic toy_store toy_draws ann_again start already_registered refused

register_with_email_verification_atomic_example :
    (register_with_email_verification toy_store toy_draws bob no_mail start).1.tables ≡ tables
register_with_email_verification_atomic_example =
    register_with_email_verification_atomic toy_store toy_draws bob no_mail start not_sent
      undelivered

logged_in : (authenticate toy_store toy_draws (codes "ann@x") right [] start).0 ≡ ok (ref_of ann)
unfolding same is_locked_out ◌-ℤ◌
logged_in =
    rw (authenticate-eq-login toy_store toy_draws (codes "ann@x") right [] tables (pos 1000) 0)

authenticate_sound_example :
    (user : User) × (Passwords.get_user_by_email_and_issuer (codes "ann@x") (codes "local") tables
      ≡ ok user)
    × Granted toy_store tables (pos 1000) right user
    × (ref_of ann ≡ ref_of user)
authenticate_sound_example =
    authenticate_sound toy_store toy_draws (codes "ann@x") right [] start (ref_of ann) logged_in

authenticate-eq-login_example : authenticate toy_store toy_draws (codes "ann@x") wrong [] start ≡ (
  err bad_credentials,
  idle (with_attempt toy_store toy_draws ann [] (pos 1000) false tables) (pos 1000) 1,
)
unfolding same is_locked_out ◌-ℤ◌
authenticate-eq-login_example =
    authenticate-eq-login toy_store toy_draws (codes "ann@x") wrong [] tables (pos 1000) 0

guessing : Guessing toy_store toy_draws (codes "ann@x") wrong ann tables
unfolding same
guessing = record { found = refl; wrong = refl }

found_ann : find? (has_email (codes "ann@x") (codes "local")) tables.users ≡ some ann
unfolding same
found_ann = refl

lockout_after_guesses_example :
    let d = insist toy_store toy_draws 2 (codes "ann@x") wrong [] tables (pos 1000) 0 in
    ((authenticate toy_store toy_draws (codes "ann@x") right [] (idle d (pos 1000) 0)).0
      ≡ err locked)
    × ((authenticate toy_store toy_draws (codes "ann@x") right [] (idle d (pos 1000) 0)).1.tables
        ≡ d)
unfolding ◌-ℤ◌
lockout_after_guesses_example =
    lockout_after_guesses toy_store toy_draws (codes "ann@x") wrong [] right [] ann tables
      (pos 1000) 0 2 refl guessing refl

unknown_like_wrong_example :
    ((authenticate toy_store toy_draws (codes "eve@x") wrong [] start).0
      ≡ (authenticate toy_store toy_draws (codes "ann@x") wrong [] start).0)
    × ((authenticate toy_store toy_draws (codes "eve@x") wrong [] start).1.hashings ≡ 1)
    × ((authenticate toy_store toy_draws (codes "ann@x") wrong [] start).1.hashings ≡ 1)
unfolding same is_locked_out ◌-ℤ◌
unknown_like_wrong_example =
    unknown_like_wrong toy_store toy_draws (codes "ann@x") (codes "eve@x") wrong [] (codes "d") ann
      tables (pos 1000) 0 refl refl guessing refl

abbrev sam : RegisterRequest
sam = record { email = codes "sam@x"; password = codes "pass"; username = codes "sam"; name = [] }

-- one registration over the empty tables, then a login of a new user of another provider, with
-- nothing that fails
abbrev with_sam : Database
with_sam = (register toy_store toy_draws sam (taken empty (pos 9) [])).1.tables

abbrev eve : Identity
eve = record (identity_of toy_store toy_draws sam) { issuer = codes "idp"; subject = codes "eve" }

abbrev eve_ids : NewIds
eve_ids = record (toy_draws.ids) { user_v7 = some 12 }

reachable-IsWellFormed_example :
    let r = resolve_or_provision_user toy_store.inner eve_ids eve (taken with_sam (pos 10) []) in
    IsWellFormed r.1.tables × HasTenant r.1.tables (admitted r.0)
reachable-IsWellFormed_example = reachable-IsWellFormed toy_store _ _ (
    Reachable.called with_sam (pos 10) [] _ none _
      (Reachable.called empty (pos 9) [] _ none none Reachable.migrated
        (Call.registers toy_draws sam))
      (Call.provisions eve_ids eve))

let_in :
    admitted (resolve_or_provision_user toy_store.inner eve_ids eve (taken with_sam (pos 10) [])).0
    ≡ some (record { user_id = 12; issuer = codes "idp"; subject = codes "eve" })
unfolding running Users.insert_tenant
let_in = refl
