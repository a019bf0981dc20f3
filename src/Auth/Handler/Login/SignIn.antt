-- ===== src/Auth/Handler/Login/SignIn.antt =====
-- The part of CallbackHandler behind the verified tokens: which claims the session holds.
use gotchi.Base.{
  ◌≡◌, refl, ◌⊎◌, inl, inr, true, false, leb, some, List, [], ◌∷◌, Text, is_empty, same, same_self,
  Bool-cases,
}
use gotchi.Errors.{ok}
use gotchi.Database.Users.{Membership}
use gotchi.Identity.Types.{UserRef, SessionClaims}
use gotchi.Web.Http.{Response}
use gotchi.Web.Session.{Sessions, as_claims, as_text}
use gotchi.Web.Handling.{H, World, ◌>>=◌}
use gotchi.Web.Handling.Ensures.{Ensures, Ensures-or_answer, Ensures-ask}
use gotchi.Auth.Oidc.{UserInfoClaims}
use gotchi.Auth.Subject.{resolve_subject_from_claims}
use gotchi.Auth.Handler.{Request, OidcHandler, id_token_key, identity_of, new_session, only_tenant}
use gotchi.Auth.Handler.Login.{login_session, login_response, start_session, sign_in}

module _ (s : Sessions) (h : OidcHandler)
    (separate : same id_token_key h.cfg.session_key ≡ false) where
  pub get-login_session :
      (c : SessionClaims) (raw : Text) (session : s.Session)
      → as_claims (s.get h.cfg.session_key (login_session s h c raw session)) ≡ some c
  unfolding login_session
  get-login_session c raw session = elim (Bool-cases (is_empty raw)) [
    | inl absent ↦ rw (absent, s.get-put, same_self)
    | inr given ↦ rw (given, s.get-put, separate, s.get-put, same_self)
  ]

  token-login_session :
      (c : SessionClaims) (raw : Text) (session : s.Session)
      → is_empty raw ≡ false
      → as_text (s.get id_token_key (login_session s h c raw session)) ≡ raw
  unfolding login_session
  token-login_session c raw session given = rw (given, s.get-put, same_self)

  -- What a handler that refuses leaves: the session as it was, and a status of an error.
  abbrev pub Refused : s.Session → Response → World s.Session → Type 0
  Refused session resp v = (v.session ≡ session) × (leb 400 resp.status ≡ true)

  -- A login of `ref` with the memberships `m ∷ ms`, both as the store gave them.
  abbrev pub LoggedIn :
      Request → Text → Text → UserInfoClaims → World s.Session → Response → World s.Session → Type 0
  LoggedIn r raw subject user w resp v =
      let identity = identity_of h.oidc.issuer_url subject user in
      (ref : UserRef) × (m : Membership) × (ms : List Membership)
      × ((h.store.resolve_or_provision_user identity w.connection).0 ≡ ok ref)
      × ((h.store.list_memberships ref.user_id
            (h.store.resolve_or_provision_user identity w.connection).1).0
          ≡ ok (m ∷ ms))
      × (as_claims (s.get h.cfg.session_key v.session) ≡ some (new_session ref (m ∷ ms)))
      × (is_empty raw ≡ false → as_text (s.get id_token_key v.session) ≡ raw)
      × (resp ≡ login_response s h r (only_tenant (m ∷ ms)) (m ∷ ms))

  -- A refusal, or a login with a subject that both the ID token and the user info agree on.
  abbrev pub SignIn :
      Request → Text → Text → Text → World s.Session → Response → World s.Session → Type 0
  SignIn r raw sub info w resp v =
      Refused w.session resp v
      ⊎ ((user : UserInfoClaims) × (subject : Text) × (h.oidc.provider.user_claims info ≡ ok user)
          × (resolve_subject_from_claims h.unicode_trim sub user.sub ≡ ok subject)
          × LoggedIn r raw subject user w resp v)

  start_session-LoggedIn :
      (r : Request) (raw subject : Text) (user : UserInfoClaims) (ref : UserRef)
      (memberships : List Membership) (w w' : World s.Session)
      → w'.session ≡ w.session
      → ((h.store.resolve_or_provision_user
            (identity_of h.oidc.issuer_url subject user)
            w.connection).0
          ≡ ok ref)
      → ((h.store.list_memberships ref.user_id
            (h.store.resolve_or_provision_user
              (identity_of h.oidc.issuer_url subject user)
              w.connection).1).0
          ≡ ok memberships)
      → Ensures
          (λ resp v. Refused w.session resp v ⊎ LoggedIn r raw subject user w resp v)
          (start_session s h r raw ref memberships)
          w'
  unfolding start_session ◌>>=◌
  start_session-LoggedIn r raw subject user ref [] w w' same_session resolved listed = record {
    at = inl (same_session, refl);
  }
  start_session-LoggedIn r raw subject user ref (m ∷ ms) w w' same_session resolved listed =
      let c = new_session ref (m ∷ ms) in
      record {
        at = inr (
          ref,
          m,
          ms,
          resolved,
          listed,
          get-login_session c raw w'.session,
          token-login_session c raw w'.session,
          refl,
        );
      }

  agree :
      (r : Request) (raw sub info : Text) (user : UserInfoClaims) (subject : Text)
      (w w' : World s.Session) (m : H s.Session Response)
      → h.oidc.provider.user_claims info ≡ ok user
      → resolve_subject_from_claims h.unicode_trim sub user.sub ≡ ok subject
      → Ensures (λ resp v. Refused w.session resp v ⊎ LoggedIn r raw subject user w resp v) m w'
      → Ensures (SignIn r raw sub info w) m w'
  agree r raw sub info user subject w w' m known agreed e = elim e.at [
    | inl refused ↦ record { at = inl refused }
    | inr logged ↦ record { at = inr (user, subject, known, agreed, logged) }
  ]

  pub sign_in-SignIn :
      (r : Request) (raw sub info : Text) (w : World s.Session)
      → Ensures (SignIn r raw sub info w) (sign_in s h r raw sub info) w
  unfolding sign_in
  sign_in-SignIn r raw sub info w =
      let P = SignIn r raw sub info w in
      Ensures-or_answer P _ _ _ _ w (λ e _. inl (refl, refl))
        (λ user known.
          Ensures-or_answer P _ _ _ _ w (λ e _. inl (refl, refl))
            (λ subject agreed. Ensures-ask P _ _ w (
              Ensures-or_answer P _ _ _ _ _ (λ e _. inl (refl, refl))
                (λ ref resolved. Ensures-ask P _ _ _ (
                  Ensures-or_answer P _ _ _ _ _ (λ e _. inl (refl, refl))
                    (λ memberships listed. agree r raw sub info user subject w _ _ known agreed (
                      start_session-LoggedIn r raw subject user ref memberships w _ refl resolved
                        listed)))))))
