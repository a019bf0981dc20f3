-- ===== src/Password/Handler/Recovery.antt =====
-- ForgotPasswordHandler and ChangePasswordHandler of auth/password/handler.go.
use gotchi.Base.{◌≡◌, refl, ◌⊎◌, inl, inr, some, List, [], ◌∷◌, Text}
use gotchi.Errors.{Error, Result, ok, err}
use gotchi.Database.Connection.{Connection, M, Mail, reset_mail, post}
use gotchi.Identity.Types.{SessionClaims}
use gotchi.Web.Http.{Response, json, message}
use gotchi.Web.Session.{Sessions}
use gotchi.Web.Tenant.{Uuids}
use gotchi.Web.Handling.{World, run, ask, give, set_session, ◌>>=◌, ◌>>◌}
use gotchi.Password.Config.{EmailSender}
use gotchi.Password.Store.{Draws}
use gotchi.Password.Store.Tokens.{initiate_password_reset, change_password}
use gotchi.Password.Store.Tokens.Change.{Checked, change_password_checks}
use gotchi.Password.Handler.{
  PasswordHandler, ChangePasswordRequest, handle_password_error, not_authenticated, bad_request,
}
use gotchi.Web.Handling.Ensures.{Ensures, Ensures-or_reply, Ensures-ask, Ensures-get_session}
use gotchi.Password.Handler.Sessions.{get_session_claims, change_password_handler, after_destroy}
use gotchi.Password.Handler.Accounts.{or_empty, hand_out, reset_sent, forgot_password_handler}

module _ (u : Uuids) (s : Sessions) (h : PasswordHandler) (draws : Draws) where
  hand_out_mailed :
      (sender : EmailSender) (email token : Text) (c : Connection)
      → or_empty (hand_out u s h draws (some sender) email token c).0 ≡ []
  unfolding hand_out
  hand_out_mailed sender email [] c = refl
  hand_out_mailed sender email (t ∷ token) c = refl

  -- an empty token is not mailed
  abbrev pub mailed : Text → Text → List Mail → List Mail
  mailed email [] before = before
  mailed email (t ∷ token) before = reset_mail email (t ∷ token) ∷ before

  hand_out_mails :
      (sender : EmailSender) (email token : Text) (c : Connection)
      → (hand_out u s h draws (some sender) email token c).1.mails ≡ mailed email token c.mails
  unfolding hand_out post
  hand_out_mails sender email [] c = refl
  hand_out_mails sender email (t ∷ token) c = refl

  -- With an EmailSender, ForgotPasswordHandler answers 202 with one text and no token to every
  -- request that it can decode, for every address, whatever the tables hold, whichever statement
  -- fails and whatever the sender returns. The session stays as it was, and a token that was made
  -- is mailed to the address, once.
  pub forgot_password_hides :
      (sender : EmailSender) (email : Text) (w : World s.Session)
      → h.cfg.email_sender ≡ some sender
      → ((run (forgot_password_handler u s h draws (ok email)) w).0 ≡ reset_sent u s h draws [])
        × ((run (forgot_password_handler u s h draws (ok email)) w).1.session ≡ w.session)
        × ((run (forgot_password_handler u s h draws (ok email)) w).1.connection.mails
            ≡ mailed email
                (or_empty (initiate_password_reset h.store draws email w.connection).0)
                (initiate_password_reset h.store draws email w.connection).1.mails)
  unfolding forgot_password_handler ◌>>=◌
  forgot_password_hides sender email w set =
      let c = initiate_password_reset h.store draws email w.connection in
      (
        rw (set, hand_out_mailed sender email (or_empty c.0) c.1),
        refl,
        rw set (hand_out_mails sender email (or_empty c.0) c.1),
      )

  -- why a change of password is refused, and the answer to it
  abbrev pub ChangeRefused : Result ChangePasswordRequest → World s.Session → Response → Type 0
  ChangeRefused body w resp =
      ((e : Error) × (get_session_claims u s h draws w.session ≡ err e)
        × (resp ≡ not_authenticated e))
      ⊎ (((e : Error) × (body ≡ err e) × (resp ≡ bad_request e))
          ⊎ ((e : Error) × (c : SessionClaims) × (req : ChangePasswordRequest) × (get_session_claims
                  u s h draws w.session
                ≡ ok c)
              × ((change_password h.store draws c.user_id req.current_password req.new_password
                    w.connection).0
                  ≡ err e)
              × (resp ≡ handle_password_error e)))

  abbrev pub ChangeOutcome :
      Result ChangePasswordRequest → World s.Session → Response → World s.Session → Type 0
  ChangeOutcome body w resp v =
      ((v.session ≡ w.session) × ChangeRefused body w resp)
      ⊎ ((c : SessionClaims) × (req : ChangePasswordRequest) × (get_session_claims u s h draws
              w.session
            ≡ ok c)
          × (body ≡ ok req)
          × Checked h.store draws c.user_id req.current_password req.new_password w.connection
          × (v.session ≡ after_destroy u s h draws w.session (s.destroy w.session))
          × (resp ≡ json 200 (message "password changed successfully" [])))

  Ensures-destroyed :
      (v : World s.Session) (session : s.Session) (resp : Response)
      (P : Response → World s.Session → Type 0)
      → ((c : Connection) → P resp (record v { session = session; connection = c }))
      → (m : M (Unit {0})) → Ensures P (ask m >>= (λ r. set_session session >> give resp)) v
  unfolding ◌>>=◌
  Ensures-destroyed v session resp P holds m = record { at = holds _ }

  change_password-Outcome :
      (body : Result ChangePasswordRequest) (w : World s.Session)
      → Ensures (ChangeOutcome body w) (change_password_handler u s h draws body) w
  unfolding change_password_handler
  change_password-Outcome body w =
      let P = ChangeOutcome body w in
      Ensures-get_session P _ w (
        Ensures-or_reply P _ _ _ w (λ e p. inl (refl, inl (e, p, refl)))
          (λ c seen.
            Ensures-or_reply P _ _ _ w (λ e p. inl (refl, inr (inl (e, p, refl))))
              (λ req decoded. Ensures-ask P _ _ w (
                Ensures-or_reply P _ _ _ _ (λ e p. inl (refl, inr (inr (e, c, req, seen, p, refl))))
                  (λ done changed.
                    Ensures-destroyed _ _ _ P
                      (λ d. inr (
                        c,
                        req,
                        seen,
                        decoded,
                        change_password_checks h.store draws c.user_id req.current_password
                            req.new_password w.connection done changed,
                        refl,
                        refl,
                      ))
                      _)))))

  -- ChangePasswordHandler either leaves the session as it was and answers with the error of the
  -- session, of the body or of ChangePassword; or the session had claims, the hash of their user
  -- verifies the current password, the policy accepts the new one, the session is destroyed unless
  -- Destroy fails, and the answer is 200.
  pub change_password_handler_checks :
      (body : Result ChangePasswordRequest) (w : World s.Session)
      → ChangeOutcome body w
          (run (change_password_handler u s h draws body) w).0
          (run (change_password_handler u s h draws body) w).1
  change_password_handler_checks body w = (change_password-Outcome body w).at
