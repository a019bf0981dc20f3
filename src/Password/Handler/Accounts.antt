-- ===== src/Password/Handler/Accounts.antt =====
-- The handlers of auth/password/handler.go for accounts: registration, reset and verification.
use gotchi.Base.{Bool, true, false, Option, none, some, Text, [], ◌∷◌, if◌then◌else◌}
use gotchi.Errors.{Error, Result, ok, err}
use gotchi.Database.Connection.{reset_mail, verification_mail, post, M, pure}
use gotchi.Database.Connection
use gotchi.Identity.Types.{UserRef}
use gotchi.Web.Http.{Response, json, error_json, registered, message}
use gotchi.Web.Session.{Sessions}
use gotchi.Web.Tenant.{Uuids}
use gotchi.Web.Handling.{H, give, or_reply, ask, get_session, ◌>>=◌, ◌>>◌}
use gotchi.Password.Config.{EmailSender}
use gotchi.Password.Store.{Draws}
use gotchi.Password.Store.Register.{
  RegisterRequest, register, register_with_email_verification, initiate_email_verification,
}
use gotchi.Password.Store.Tokens.{initiate_password_reset, complete_password_reset, verify_email}
use gotchi.Password.Handler.{
  PasswordHandler, ResetPasswordRequest, handle_password_error, not_authenticated, bad_request,
}
use gotchi.Password.Handler.Sessions.{get_session_claims}

-- the method, or nil
abbrev pub email_verification_sender : Option EmailSender → Option (Text → Text → Result (Unit {0}))
email_verification_sender none = none
email_verification_sender (some sender) = some sender.send_email_verification

abbrev pub is_set : Option EmailSender → Bool
is_set none = false
is_set (some sender) = true

abbrev pub or_empty : Result Text → Text
or_empty (ok t) = t
or_empty (err e) = []

module _ (u : Uuids) (s : Sessions) (h : PasswordHandler) (draws : Draws) where
  -- the reference and the verification token, which is empty without verification
  unfoldable pub register_account : Bool → RegisterRequest → M (UserRef × Text)
  register_account true req =
      register_with_email_verification h.store draws req
        (email_verification_sender h.cfg.email_sender)
  register_account false req = Connection.◌>>=◌ (register h.store draws req) (λ ref. pure (ref, []))

  -- the response after a registration
  unfoldable pub created_response : Text → UserRef → Text → Response
  created_response email ref token =
      let verifies = h.cfg.require_email_verification in
      let sent = is_set h.cfg.email_sender in
      json 201 (
        if verifies
        then (if sent
            then registered (u.print ref.user_id) email true []
            else registered (u.print ref.user_id) email false token)
        else registered (u.print ref.user_id) email false [])

  unfoldable pub register_handler : Result RegisterRequest → H s.Session Response
  unfolding created_response register_account
  register_handler body = do
    req ← or_reply bad_request body
    outcome ← ask (register_account h.cfg.require_email_verification req)
    done ← or_reply handle_password_error outcome
    give (created_response req.email done.0 done.1)

  -- what happens to a reset token: returned without a sender, else mailed; an empty one is neither
  unfoldable pub hand_out : Option EmailSender → Text → Text → M Text
  hand_out sender email [] c = (ok [], c)
  hand_out none email (t ∷ token) c = (ok (t ∷ token), c)
  hand_out (some sender) email (t ∷ token) c = (
    ok [],
    (post (reset_mail email (t ∷ token)) (sender.send_password_reset email (t ∷ token)) c).1,
  )

  abbrev pub reset_sent : Text → Response
  reset_sent token =
      json 202
        (message "If an account exists with this email, a password reset link has been sent." token)

  unfoldable pub forgot_password_handler : Result Text → H s.Session Response
  unfolding hand_out
  forgot_password_handler body = do
    email ← or_reply bad_request body
    token ← ask (initiate_password_reset h.store draws email)
    shown ← ask (hand_out h.cfg.email_sender email (or_empty token))
    give (reset_sent (or_empty shown))

  unfoldable pub reset_password_handler : Result ResetPasswordRequest → H s.Session Response
  reset_password_handler body = do
    req ← or_reply bad_request body
    done ← ask (complete_password_reset h.store draws req.token req.new_password)
    or_reply handle_password_error done
    give (json 200 (message "password has been reset successfully" []))

  unfoldable pub verify_email_handler : Result Text → H s.Session Response
  verify_email_handler body = do
    token ← or_reply bad_request body
    done ← ask (verify_email h.store draws token)
    or_reply handle_password_error done
    give (json 200 (message "email verified successfully" []))

  abbrev pub no_token : Error → Response
  no_token e = json 500 (error_json "internal_error" "failed to generate verification token")

  -- mailed to the subject of the claims, or returned without a sender
  unfoldable pub resend : Option EmailSender → Text → Text → M Response
  resend none to token c = (ok (json 200 (message "verification token generated" token)), c)
  resend (some sender) to token c = (
    ok (json 200 (message "verification email sent" [])),
    (post (verification_mail to token) (sender.send_email_verification to token) c).1,
  )

  unfoldable pub resend_verification_handler : H s.Session Response
  unfolding get_session_claims resend
  resend_verification_handler = do
    session ← get_session
    c ← or_reply not_authenticated (get_session_claims u s h draws session)
    token ← ask (initiate_email_verification h.store draws c.user_id)
    plaintext ← or_reply no_token token
    sent ← ask (resend h.cfg.email_sender c.subject plaintext)
    or_reply no_token sent
