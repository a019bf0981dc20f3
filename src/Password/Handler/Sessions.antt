-- ===== src/Password/Handler/Sessions.antt =====
-- The handlers of auth/password/handler.go that write or end a session: login, logout and the change
-- of a password.
use gotchi.Base.{ltb, Option, none, some, Text, [], length}
use gotchi.Errors.{Error, Result, ok, err}
use gotchi.Database.Connection.{changed_mail, post, M}
use gotchi.Identity.Store.{list_memberships}
use gotchi.Identity.Types.{SessionClaims}
use gotchi.Web.Http.{Response, json, error_json, no_body, logged_in, message}
use gotchi.Web.Session.{Sessions, claims, as_claims}
use gotchi.Web.Tenant.{Uuids}
use gotchi.Web.Handling.{H, give, or_reply, ask, get_session, set_session, ◌>>=◌, ◌>>◌}
use gotchi.Auth.Handler.{authenticated_claims, new_session}
use gotchi.Password.Config.{EmailSender}
use gotchi.Password.Store.{Draws}
use gotchi.Password.Store.Authenticate.{authenticate}
use gotchi.Password.Store.Tokens.{change_password}
use gotchi.Password.Handler.{
  PasswordHandler, LoginRequest, ChangePasswordRequest, handle_password_error, not_authenticated,
  bad_request, ip_address,
}

module _ (u : Uuids) (s : Sessions) (h : PasswordHandler) (draws : Draws) where
  unfoldable pub get_session_claims : s.Session → Result SessionClaims
  get_session_claims session = authenticated_claims (as_claims (s.get h.cfg.session_key session))

  abbrev pub no_memberships : Error → Response
  no_memberships e = json 500 (error_json "internal_error" "failed to list memberships")

  -- `real_ip` is the header X-Real-IP
  unfoldable pub login_handler : Text → Text → Result LoginRequest → H s.Session Response
  login_handler real_ip remote_addr body = do
    req ← or_reply bad_request body
    granted ←
        ask (authenticate h.store draws req.email req.password (ip_address real_ip remote_addr))
    ref ← or_reply handle_password_error granted
    listed ← ask (list_memberships ref.user_id)
    memberships ← or_reply no_memberships listed
    session ← get_session
    set_session (s.put h.cfg.session_key (claims (new_session ref memberships)) session)
    give (
        json 200
          (logged_in (u.print ref.user_id) (length memberships) (ltb 1 (length memberships))))

  abbrev pub not_destroyed : Error → Response
  not_destroyed e = json 500 (error_json "internal_error" "failed to destroy session")

  unfoldable pub logout_handler : H s.Session Response
  unfolding get_session_claims
  logout_handler = do
    session ← get_session
    or_reply not_authenticated (get_session_claims session)
    after ← or_reply not_destroyed (s.destroy session)
    set_session after
    give (record { status = 204; location = none; body = no_body })

  -- `_ = sender.SendPasswordChanged(…)`
  unfoldable pub notify_changed : Option EmailSender → Text → M (Unit {0})
  notify_changed none to c = (ok tt, c)
  notify_changed (some sender) to c = post (changed_mail to) (sender.send_password_changed to) c

  -- an error of Destroy is ignored
  abbrev pub after_destroy : s.Session → Result s.Session → s.Session
  after_destroy before (ok after) = after
  after_destroy before (err e) = before

  unfoldable pub change_password_handler : Result ChangePasswordRequest → H s.Session Response
  unfolding get_session_claims notify_changed
  change_password_handler body = do
    session ← get_session
    c ← or_reply not_authenticated (get_session_claims session)
    req ← or_reply bad_request body
    changed ← ask (change_password h.store draws c.user_id req.current_password req.new_password)
    or_reply handle_password_error changed
    ask (notify_changed h.cfg.email_sender c.subject)
    set_session (after_destroy session (s.destroy session))
    give (json 200 (message "password changed successfully" []))
