-- ===== src/Password/Handler/Tests.antt =====
-- The handlers on the fixture, and the theorems at inputs that meet their hypotheses.
use gotchi.Base.{◌≡◌, refl, none, some, [], codes}
use gotchi.Errors.{ok}
use gotchi.Web.Handling.{run}
use gotchi.Auth.Fixture.{toy_sessions, toy_uuids, world_with, logged_in}
use gotchi.Password.Config.{EmailSender}
use gotchi.Password.Fixture.{toy_store, toy_draws, config, toy_hasher}
use gotchi.Password.Store.Tokens.{initiate_password_reset}
use gotchi.Password.Handler.{PasswordHandler}
use gotchi.Password.Handler.Sessions.{login_handler, change_password_handler}
use gotchi.Password.Handler.Accounts.{forgot_password_handler, reset_sent, or_empty}
use gotchi.Password.Handler.LoginErrors.{HasherIsInternal}
use gotchi.Password.Handler.Login.{LoginOutcome, login_handler_answers}
use gotchi.Password.Handler.Recovery.{
  ChangeOutcome, change_password_handler_checks, forgot_password_hides, mailed,
}

abbrev sender : EmailSender
sender = record {
  send_password_reset = λ to token. ok tt;
  send_email_verification = λ to token. ok tt;
  send_password_changed = λ to. ok tt;
}

abbrev handler : PasswordHandler
handler = record { cfg = record config { email_sender = some sender }; store = toy_store }

toy-HasherIsInternal : HasherIsInternal toy_hasher
toy-HasherIsInternal p t e failed = absurd (cc)

login_handler_answers_example :
    LoginOutcome toy_uuids toy_sessions handler toy_draws toy-HasherIsInternal []
      (codes "127.0.0.1:80")
      (ok (record { email = codes "ann@x"; password = codes "pw" }))
      (world_with [])
      (run
        (login_handler toy_uuids toy_sessions handler toy_draws []
          (codes "127.0.0.1:80")
          (ok (record { email = codes "ann@x"; password = codes "pw" })))
        (world_with [])).0
      (run
        (login_handler toy_uuids toy_sessions handler toy_draws []
          (codes "127.0.0.1:80")
          (ok (record { email = codes "ann@x"; password = codes "pw" })))
        (world_with [])).1
login_handler_answers_example =
    login_handler_answers toy_uuids toy_sessions handler toy_draws toy-HasherIsInternal []
      (codes "127.0.0.1:80") (ok (record { email = codes "ann@x"; password = codes "pw" }))
      (world_with [])

change_password_handler_checks_example :
    ChangeOutcome toy_uuids toy_sessions handler toy_draws
      (ok (record { current_password = codes "pw"; new_password = codes "fresh" }))
      (logged_in none)
      (run
        (change_password_handler toy_uuids toy_sessions handler toy_draws
          (ok (record { current_password = codes "pw"; new_password = codes "fresh" })))
        (logged_in none)).0
      (run
        (change_password_handler toy_uuids toy_sessions handler toy_draws
          (ok (record { current_password = codes "pw"; new_password = codes "fresh" })))
        (logged_in none)).1
change_password_handler_checks_example =
    change_password_handler_checks toy_uuids toy_sessions handler toy_draws
      (ok (record { current_password = codes "pw"; new_password = codes "fresh" })) (logged_in none)

forgot_password_hides_example :
    ((run
        (forgot_password_handler toy_uuids toy_sessions handler toy_draws (ok (codes "bob")))
        (world_with [])).0
      ≡ reset_sent toy_uuids toy_sessions handler toy_draws [])
    × ((run
          (forgot_password_handler toy_uuids toy_sessions handler toy_draws (ok (codes "bob")))
          (world_with [])).1.session
        ≡ [])
    × ((run
          (forgot_password_handler toy_uuids toy_sessions handler toy_draws (ok (codes "bob")))
          (world_with [])).1.connection.mails
        ≡ mailed toy_uuids toy_sessions handler toy_draws
            (codes "bob")
            (or_empty
              (initiate_password_reset toy_store toy_draws
                (codes "bob")
                (world_with []).connection).0)
            (initiate_password_reset toy_store toy_draws
              (codes "bob")
              (world_with []).connection).1.mails)
forgot_password_hides_example =
    forgot_password_hides toy_uuids toy_sessions handler toy_draws sender (codes "bob")
      (world_with []) refl
