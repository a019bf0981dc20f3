-- ===== src/Password/Store/Tokens/Tests.antt =====
-- A reset on the fixture, and the theorems at inputs that meet their hypotheses.
use gotchi.Base.{◌+ℤ◌, pos, ◌≡◌, ◌≢◌, refl, none, true, [], ◌∷◌, codes, same, leb_ℤ}
use gotchi.Errors.{ok}
use gotchi.Database.{Database, AuthToken, password_reset, email_verification}
use gotchi.Database.Passwords
use gotchi.Database.Passwords.{consume_auth_token, insert_auth_token}
use gotchi.Database.Connection.{Connection, exec, ◌>>=◌}
use gotchi.Database.Connection.Calm.{idle}
use gotchi.Strings.{to_lower, contains, has_prefix, has_control}
use gotchi.Password.Fixture.{toy_store, toy_draws, ann, tables}
use gotchi.Password.Policy.{validate, mentions}
use gotchi.Password.Store.{hash_password, verify_password, verified}
use gotchi.Password.Store.Tokens.{
  verify_email, change_password, initiate_password_reset, complete_password_reset, found_or, decide,
  set_password,
}
use gotchi.Password.Store.Tokens.Spent.{Spent}
use gotchi.Password.Store.Tokens.Journey.{reset_completes}
use gotchi.Password.Store.Tokens.Evolves.{Step, Evolves}
use gotchi.Password.Store.Tokens.Once.{complete_password_reset_spends, complete_password_reset_once}

abbrev with_token : Database
with_token = record tables {
  tokens =
      record {
        user_id = 7;
        token_hash = 1 ∷ codes "tok";
        token_type = password_reset;
        expires_at = pos 2000;
        consumed_at = none;
      }
      ∷ [];
}

abbrev start : Connection
start = idle with_token (pos 1000) 0

taken : (exec (consume_auth_token (1 ∷ codes "tok") password_reset (pos 1000)) start).0 ≡ ok 7
unfolding exec consume_auth_token same
taken = refl

reset : (complete_password_reset toy_store toy_draws (codes "tok") (codes "fresh") start).0 ≡ ok tt
unfolding complete_password_reset found_or decide set_password exec ◌>>=◌ consume_auth_token same
    validate mentions to_lower contains has_prefix has_control hash_password
    Passwords.get_user_by_id Passwords.update_password_hash
reset = refl

complete_password_reset_spends_example :
    Spent
      (1 ∷ codes "tok")
      password_reset
      (pos 1000)
      (complete_password_reset toy_store toy_draws (codes "tok") (codes "no") start).1.tables.tokens
complete_password_reset_spends_example =
    complete_password_reset_spends toy_store toy_draws (codes "tok") (codes "no") start 7 taken

abbrev after : Database
after = (complete_password_reset toy_store toy_draws (codes "tok") (codes "fresh") start).1.tables

-- another token of the same user, issued since
abbrev another : AuthToken
another = record {
  user_id = 7;
  token_hash = 1 ∷ codes "new";
  token_type = password_reset;
  expires_at = pos 3000;
  consumed_at = none;
}

abbrev evening : Connection
evening = idle (record after { tokens = another ∷ after.tokens }) (pos 1500) 0

meanwhile : Evolves (1 ∷ codes "tok") after evening.tables
unfolding complete_password_reset found_or decide set_password exec ◌>>=◌ consume_auth_token same
    validate mentions to_lower contains has_prefix has_control hash_password
    Passwords.get_user_by_id Passwords.update_password_hash insert_auth_token
meanwhile = Evolves.next Evolves.here (Step.issues another refl refl)

complete_password_reset_once_example :
    (complete_password_reset toy_store toy_draws (codes "tok") (codes "other") evening).0 ≢ ok tt
complete_password_reset_once_example =
    complete_password_reset_once toy_store toy_draws (codes "tok") (codes "fresh") (codes "other")
      start evening tt tt reset meanwhile refl

changed : (change_password toy_store toy_draws 7 (codes "pw") (codes "fresh") start).0 ≡ ok tt
unfolding change_password found_or decide set_password exec ◌>>=◌ same validate mentions to_lower
    contains has_prefix has_control hash_password verify_password verified
    Passwords.get_password_credential Passwords.get_user_by_id Passwords.update_password_hash
    Passwords.invalidate_user_tokens
changed = refl

abbrev with_verification : Connection
with_verification =
    idle
      (record tables {
        tokens =
            record {
              user_id = 7;
              token_hash = 1 ∷ codes "ver";
              token_type = email_verification;
              expires_at = pos 2000;
              consumed_at = none;
            }
            ∷ [];
      })
      (pos 1000) 0

verified_once : (verify_email toy_store toy_draws (codes "ver") with_verification).0 ≡ ok tt
unfolding verify_email found_or decide exec ◌>>=◌ consume_auth_token same
    Passwords.update_email_verified
verified_once = refl

not_earlier :
    leb_ℤ with_verification.clock
      (verify_email toy_store toy_draws (codes "ver") with_verification).1.clock
    ≡ true
unfolding verify_email found_or decide exec ◌>>=◌ consume_auth_token same
    Passwords.update_email_verified
not_earlier = refl

-- Ann asks at 1000 and sets her new password at 1500.
reset_completes_example :
    let (token, c) =
      initiate_password_reset toy_store toy_draws (codes "ann@x") (idle tables (pos 1000) 0) in
    let (done, c') =
      complete_password_reset toy_store toy_draws
        (codes "tok")
        (codes "fresh")
        (idle c.tables (pos 1500) 0) in
    (token ≡ ok (codes "tok"))
    × (done ≡ ok tt)
    × (Passwords.get_password_credential 7 c'.tables
        ≡ ok (record {
          user_id = 7;
          password_hash = codes "sfresh";
          hash_algorithm = codes "argon2id";
        }))
unfolding same validate mentions to_lower contains has_prefix has_control ◌+ℤ◌
reset_completes_example =
    reset_completes toy_store toy_draws (codes "ann@x") (codes "tok") ann tables (pos 1000) 0 refl
      refl (codes "fresh") (codes "s") toy_draws 0 refl refl refl
      (record { user_id = 7; password_hash = codes "spw"; hash_algorithm = codes "argon2id" })
      (pos 1500) refl refl
