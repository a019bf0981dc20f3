-- ===== src/Password/Handler/Login.antt =====
-- LoginHandler: its answers, and whom it signs in.
use gotchi.Base.{
  ℕ, ◌≡◌, refl, ◌⊎◌, inl, inr, Option, some, List, Text, String, ltb, length, same_self,
}
use gotchi.Errors.{Sentinel, Result, ok}
use gotchi.Database.{User}
use gotchi.Database.Passwords
use gotchi.Database.Users.{Membership}
use gotchi.Identity.Types.{UserRef}
use gotchi.Identity.Store.{list_memberships, ref_of}
use gotchi.Web.Http.{Response, json, error_json, logged_in}
use gotchi.Web.Session.{Sessions, claims, as_claims}
use gotchi.Web.Tenant.{Uuids}
use gotchi.Web.Handling.{World, run, set_session, give, ◌>>=◌, ◌>>◌}
use gotchi.Web.Handling.Ensures.{Ensures, Ensures-or_reply, Ensures-ask, Ensures-get_session}
use gotchi.Auth.Handler.{new_session}
use gotchi.Password.Store.{Draws}
use gotchi.Password.Store.Authenticate.{authenticate}
use gotchi.Password.Store.Authenticate.Soundness.{Granted, authenticate_sound}
use gotchi.Password.Handler.{
  PasswordHandler, LoginRequest, answer_for, handle_password_error, ip_address,
}
use gotchi.Password.Handler.Sessions.{login_handler}
use gotchi.Password.Handler.LoginErrors.{LoginError, HasherIsInternal, authenticate-Fails}

abbrev pub Says : ℕ → String → String → Response → Type 0
Says status code message resp = resp ≡ json status (error_json code message)

-- the errors of a login that a client can see
abbrev pub Refusal : Response → Type 0
Refusal resp =
    Says 400 "invalid_request" "failed to parse request body" resp
    ⊎ (Says 401 "invalid_credentials" "invalid_credentials" resp
        ⊎ (Says 423 "account_locked" "account_locked" resp
            ⊎ (Says 403 "email_not_verified" "email_not_verified" resp
                ⊎ (Says 500 "internal_error" "an unexpected error occurred" resp
                    ⊎ Says 500 "internal_error" "failed to list memberships" resp))))

answer_for-Refusal : (o : Option (Sentinel × ℕ)) → LoginError o → Refusal (answer_for o)
unfolding answer_for
answer_for-Refusal o (inl e) = inr (inr (inr (inr (inl (rw e)))))
answer_for-Refusal o (inr (inl e)) = inr (inl (rw e))
answer_for-Refusal o (inr (inr (inl e))) = inr (inr (inl (rw e)))
answer_for-Refusal o (inr (inr (inr e))) = inr (inr (inr (inl (rw e))))

module _ (u : Uuids) (s : Sessions) (h : PasswordHandler) (draws : Draws)
    (hasher : HasherIsInternal h.store.hasher) where
  -- the claims of a login with a password, and the answer to it
  abbrev pub SignedIn : UserRef → List Membership → Response → World s.Session → Type 0
  SignedIn ref ms resp v =
      (as_claims (s.get h.cfg.session_key v.session) ≡ some (new_session ref ms))
      × (resp ≡ json 200 (logged_in (u.print ref.user_id) (length ms) (ltb 1 (length ms))))

  abbrev pub LoginOutcome :
      Text → Text → Result LoginRequest → World s.Session → Response → World s.Session → Type 0
  LoginOutcome real_ip remote_addr body w resp v =
      ((v.session ≡ w.session) × Refusal resp)
      ⊎ ((req : LoginRequest) × (ref : UserRef) × (ms : List Membership) × (body ≡ ok req)
          × ((user : User) × (Passwords.get_user_by_email_and_issuer req.email h.store.cfg.issuer
                  w.connection.tables
                ≡ ok user)
              × Granted h.store w.connection.tables w.connection.clock req.password user
              × (ref ≡ ref_of user))
          × ((list_memberships ref.user_id
                (authenticate h.store draws req.email req.password (ip_address real_ip remote_addr)
                  w.connection).1).0
              ≡ ok ms)
          × SignedIn ref ms resp v)

  start_session-SignedIn :
      (real_ip remote_addr : Text) (body : Result LoginRequest) (req : LoginRequest) (ref : UserRef)
      (ms : List Membership) (w w' : World s.Session)
      → body ≡ ok req
      → (authenticate h.store draws req.email req.password
          (ip_address real_ip remote_addr)
          w.connection).0
        ≡ ok ref
      → (list_memberships ref.user_id
          (authenticate h.store draws req.email req.password
            (ip_address real_ip remote_addr)
            w.connection).1).0
        ≡ ok ms
      → Ensures
          (LoginOutcome real_ip remote_addr body w)
          (set_session (s.put h.cfg.session_key (claims (new_session ref ms)) w'.session)
            >> give (json 200 (logged_in (u.print ref.user_id) (length ms) (ltb 1 (length ms)))))
          w'
  unfolding ◌>>=◌
  start_session-SignedIn real_ip remote_addr body req ref ms w w' decoded granted listed = record {
    at = inr (
      req,
      ref,
      ms,
      decoded,
      authenticate_sound h.store draws req.email req.password (ip_address real_ip remote_addr)
          w.connection ref granted,
      listed,
      (rw (s.get-put, same_self), refl),
    );
  }

  login-Outcome :
      (real_ip remote_addr : Text) (body : Result LoginRequest) (w : World s.Session)
      → Ensures
          (LoginOutcome real_ip remote_addr body w)
          (login_handler u s h draws real_ip remote_addr body)
          w
  unfolding login_handler handle_password_error
  login-Outcome real_ip remote_addr body w =
      let P = LoginOutcome real_ip remote_addr body w in
      Ensures-or_reply P _ _ _ w (λ e _. inl (refl, inl refl))
        (λ req decoded.
          let ip = ip_address real_ip remote_addr in
          Ensures-ask P _ _ w (
            Ensures-or_reply P _ _ _ _
              (λ e failed. inl (
                refl,
                answer_for-Refusal _ (
                    (authenticate-Fails h.store draws hasher req.email req.password ip).at
                      w.connection e failed),
              ))
              (λ ref granted. Ensures-ask P _ _ _ (
                Ensures-or_reply P _ _ _ _ (λ e _. inl (refl, inr (inr (inr (inr (inr refl))))))
                  (λ ms listed. Ensures-get_session P _ _ (
                    start_session-SignedIn real_ip remote_addr body req ref ms w _ decoded granted
                      listed))))))

  -- Whatever the request, the tables and the statements that fail, LoginHandler either leaves the
  -- session as it was and answers with one of six errors; or it has authenticated the user of the request by every check of
  -- Authenticate, puts the claims of this user into the session, with the tenant of the only
  -- membership as active tenant, and answers 200 with the number of memberships.
  pub login_handler_answers :
      (real_ip remote_addr : Text) (body : Result LoginRequest) (w : World s.Session)
      → LoginOutcome real_ip remote_addr body w
          (run (login_handler u s h draws real_ip remote_addr body) w).0
          (run (login_handler u s h draws real_ip remote_addr body) w).1
  login_handler_answers real_ip remote_addr body w = (login-Outcome real_ip remote_addr body w).at
