-- ===== src/Auth/Handler/Tenants/Listing.antt =====
-- ListTenantsHandler: one entry for each membership.
use gotchi.Base.{◌≡◌, refl, false, Bool-cases, inl, inr, List, [], ◌∷◌, Text, is_empty}
use gotchi.Errors.{ok}
use gotchi.Database.Users.{Membership}
use gotchi.Database.Connection.{Connection}
use gotchi.Identity.Types.{SessionClaims}
use gotchi.Web.Http.{TenantResponse, tenants, json}
use gotchi.Web.Session.{Sessions}
use gotchi.Web.Tenant.{Uuids}
use gotchi.Web.Handling.{World, step, run, ◌>>=◌}
use gotchi.Auth.Handler.{OidcHandler, is_active, display_name}
use gotchi.Auth.Handler.Tenants.{
  get_session_claims, tenant_name, tenant_entry, describe, list_tenants_handler,
}

module _ (u : Uuids) (s : Sessions) (h : OidcHandler) where
  -- the entry of a membership, under its own name where it has one
  abbrev pub Describes : SessionClaims → Membership → TenantResponse → Type 0
  Describes c m entry =
      (entry.tenant_id ≡ u.print m.tenant_id)
      × (entry.role ≡ m.role)
      × (entry.is_active ≡ is_active c.active_tenant_id m.tenant_id)
      × (is_empty m.tenant_name ≡ false → entry.name ≡ m.tenant_name)

  -- entry by entry, in the order of the memberships
  abbrev pub DescribesAll : SessionClaims → List Membership → List TenantResponse → Type 0
  DescribesAll c [] [] = Unit
  DescribesAll c [] (e ∷ es) = ⊥
  DescribesAll c (m ∷ ms) [] = ⊥
  DescribesAll c (m ∷ ms) (e ∷ es) = Describes c m e × DescribesAll c ms es

  named :
      (m : Membership) (w : World s.Session)
      → (name : Text) × (v : World s.Session) × (tenant_name u s h m w ≡ (step name, v))
        × (v.session ≡ w.session)
        × (is_empty m.tenant_name ≡ false → name ≡ m.tenant_name)
  unfolding tenant_name ◌>>=◌
  named m w = elim (Bool-cases (is_empty m.tenant_name)) [
    | inl empty ↦ (
      display_name (h.store.get_tenant_display m.tenant_id w.connection).0,
      record w { connection = (h.store.get_tenant_display m.tenant_id w.connection).1 },
      rw empty,
      refl,
      λ full. absurd (cc),
    )
    | inr full ↦ (m.tenant_name, w, rw full, refl, λ f. refl)
  ]

  described :
      (c : SessionClaims) (ms : List Membership) (w : World s.Session)
      → (es : List TenantResponse) × (v : World s.Session) × (describe u s h c ms w ≡ (step es, v))
        × (v.session ≡ w.session)
        × DescribesAll c ms es
  unfolding describe ◌>>=◌
  described c [] w = ([], w, refl, refl, tt)
  described c (m ∷ ms) w =
      let (name, v, found, kept, own) = named m w in
      let (es, v', rest, kept', all) = described c ms v in
      (tenant_entry u s h c m name ∷ es, v', rw (found, rest), cc, ((refl, refl, refl, own), all))

  -- For a user who is logged in and whose memberships the store lists, the handler answers 200 with
  -- one entry for each of them, in their order: its tenant, its role, whether it is the active one,
  -- and its name where it has one. The session stays as it was, also where the names of others
  -- cannot be looked up.
  pub list_tenants_describes :
      (w : World s.Session) (c : SessionClaims) (ms : List Membership) (d : Connection)
      → get_session_claims u s h w.session ≡ ok c
      → h.store.list_memberships c.user_id w.connection ≡ (ok ms, d)
      → (es : List TenantResponse) × ((run (list_tenants_handler u s h) w).0
          ≡ json 200 (tenants es))
        × ((run (list_tenants_handler u s h) w).1.session ≡ w.session)
        × DescribesAll c ms es
  unfolding list_tenants_handler ◌>>=◌
  list_tenants_describes w c ms d seen listed =
      let (es, v, found, kept, all) = described c ms (record w { connection = d }) in
      (es, rw (seen, listed, found), rw (seen, listed, found) kept, all)
