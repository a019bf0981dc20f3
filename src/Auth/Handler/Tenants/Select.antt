-- ===== src/Auth/Handler/Tenants/Select.antt =====
-- SelectTenantHandler: which tenant becomes the active one.
use gotchi.Base.{
  ℕ, ◌≡◌, refl, ◌⊎◌, inl, inr, true, false, leb, none, some, List, Text, same, same_self,
}
use gotchi.Errors.{ok}
use gotchi.Database.Users.{Membership}
use gotchi.Database.Connection.{Connection}
use gotchi.Identity.Types.{SessionClaims}
use gotchi.Web.Http.{Response, no_body}
use gotchi.Web.Session.{Sessions, claims, as_claims}
use gotchi.Web.Tenant.{Uuids}
use gotchi.Web.Handling.{World, run, set_session, give, ◌>>=◌, ◌>>◌}
use gotchi.Web.Handling.Ensures.{
  Ensures, Ensures-or_answer, Ensures-insist, Ensures-ask, Ensures-get_session,
}
use gotchi.Auth.Handler.{Request, OidcHandler, allowed, parse_result}
use gotchi.Auth.Handler.Tenants.{get_session_claims, select_tenant_handler}

module _ (u : Uuids) (s : Sessions) (h : OidcHandler) where
  abbrev pub Refused : s.Session → Response → World s.Session → Type 0
  Refused session resp v = (v.session ≡ session) × (leb 400 resp.status ≡ true)

  -- Only the claims changed, and of these only the active tenant.
  abbrev pub Switched : SessionClaims → ℕ → s.Session → s.Session → Type 0
  Switched c id before after =
      (as_claims (s.get h.cfg.session_key after) ≡ some (record c { active_tenant_id = some id }))
      × ((j : Text) → same h.cfg.session_key j ≡ false → s.get j after ≡ s.get j before)

  abbrev pub SelectOutcome : Request → World s.Session → Response → World s.Session → Type 0
  SelectOutcome r w resp v =
      Refused w.session resp v
      ⊎ ((c : SessionClaims) × (payload : Text) × (id : ℕ) × (ms : List Membership)
          × (get_session_claims u s h w.session ≡ ok c)
          × (r.body_tenant_id ≡ ok payload)
          × (parse_result (u.parse payload) ≡ ok id)
          × ((h.store.list_memberships c.user_id w.connection).0 ≡ ok ms)
          × (allowed id ms ≡ true)
          × (resp.status ≡ 204)
          × Switched c id w.session v.session)

  switched :
      (c : SessionClaims) (id : ℕ) (session : s.Session)
      → Switched c id session
          (s.put h.cfg.session_key (claims (record c { active_tenant_id = some id })) session)
  switched c id session = (rw (s.get-put, same_self), λ j apart. rw (s.get-put, apart))

  switch :
      (r : Request) (w : World s.Session) (c : SessionClaims) (payload : Text) (id : ℕ)
      (ms : List Membership)
      → get_session_claims u s h w.session ≡ ok c
      → r.body_tenant_id ≡ ok payload
      → parse_result (u.parse payload) ≡ ok id
      → (h.store.list_memberships c.user_id w.connection).0 ≡ ok ms
      → allowed id ms ≡ true
      → Ensures
          (SelectOutcome r w)
          (set_session
              (s.put h.cfg.session_key (claims (record c { active_tenant_id = some id })) w.session)
            >> give (record { status = 204; location = none; body = no_body }))
          (record w { connection = (h.store.list_memberships c.user_id w.connection).1 })
  unfolding ◌>>=◌
  switch r w c payload id ms seen decoded parsed listed member = record {
    at =
        inr (
          c,
          payload,
          id,
          ms,
          seen,
          decoded,
          parsed,
          listed,
          member,
          refl,
          switched c id w.session,
        );
  }

  select-Outcome :
      (r : Request) (w : World s.Session)
      → Ensures (SelectOutcome r w) (select_tenant_handler u s h r) w
  unfolding select_tenant_handler
  select-Outcome r w =
      let P = SelectOutcome r w in
      Ensures-get_session P _ w (
        Ensures-or_answer P _ _ _ _ w (λ e _. inl (refl, refl))
          (λ c seen.
            Ensures-or_answer P _ _ _ _ w (λ e _. inl (refl, refl))
              (λ payload decoded.
                Ensures-or_answer P _ _ _ _ w (λ e _. inl (refl, refl))
                  (λ id parsed. Ensures-ask P _ _ w (
                    Ensures-or_answer P _ _ _ _ _ (λ e _. inl (refl, refl))
                      (λ ms listed.
                        Ensures-insist P _ _ _ _ _ (λ _. inl (refl, refl))
                          (λ member.
                            switch r w c payload id ms seen decoded parsed listed member)))))))

  -- Whatever the request, the session and the store, the handler either answers with an error status
  -- and leaves the session as it was, or answers 204: then the session held claims that say
  -- authenticated, the tenant of the body is among the memberships that the store lists for their
  -- user, and the session changes in the active tenant of the claims and nowhere else.
  pub select_tenant_only_to_membership :
      (r : Request) (w : World s.Session)
      → SelectOutcome r w
          (run (select_tenant_handler u s h r) w).0
          (run (select_tenant_handler u s h r) w).1
  select_tenant_only_to_membership r w = (select-Outcome r w).at

  -- A user who is logged in and names a tenant among the own memberships switches to it.
  pub select_tenant_completes :
      (r : Request) (w : World s.Session) (c : SessionClaims) (id : ℕ) (payload : Text)
      (ms : List Membership) (d : Connection)
      → get_session_claims u s h w.session ≡ ok c
      → r.body_tenant_id ≡ ok payload
      → u.parse payload ≡ some id
      → h.store.list_memberships c.user_id w.connection ≡ (ok ms, d)
      → allowed id ms ≡ true
      → ((run (select_tenant_handler u s h r) w).0.status ≡ 204)
        × Switched c id w.session (run (select_tenant_handler u s h r) w).1.session
  unfolding select_tenant_handler ◌>>=◌
  select_tenant_completes r w c id payload ms d seen decoded parsed listed member =
      rw (seen, decoded, parsed, listed, member) (refl, switched c id w.session)
