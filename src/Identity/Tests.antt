-- ===== src/Identity/Tests.antt =====
-- A user of the OIDC login whose membership could not be stored.
use gotchi.Base.{◌≡◌, refl, true, false, none, some, [], ◌∷◌, codes, pos, find?, same}
use gotchi.Database.{Tenant, Database, empty}
use gotchi.Database.Users.{has_identifier, join_tenants}
use gotchi.Identity.Types.{Identity}
use gotchi.Identity.Store.{PostgresIdentityStore, NewIds, user_of, resolve_or_provision_user}
use gotchi.Identity.Stranded.{pooled, IsRefused, failed_membership_strands_user}

abbrev store : PostgresIdentityStore
store = record { has_pool = true; default_tenant_name = codes "Default" }

abbrev ids : NewIds
ids = record { user_v7 = some 5; user_v4 = 6; tenant_v7 = none; tenant_v4 = 7 }

abbrev bob : Identity
bob = record {
  issuer = codes "https://id";
  subject = codes "bob";
  email = codes "bob@x";
  email_verified = true;
  username = [];
  name = [];
  preferred_username = [];
}

abbrev home : Tenant
home = record { tenant_id = 1; name = codes "Home" }

abbrev one_tenant : Database
one_tenant = record empty { tenants = home ∷ [] }

-- the tables left behind, to which a second tenant has come
abbrev with_bob : Database
with_bob = record empty {
  users = user_of ids bob (pos 9) ∷ [];
  tenants = home ∷ record home { tenant_id = 8 } ∷ [];
}

failed_membership_strands_user_example :
    let left =
      (resolve_or_provision_user store ids bob
        (pooled one_tenant (pos 9) (false ∷ false ∷ false ∷ true ∷ []))).1.tables in
    (left ≡ record one_tenant { users = user_of ids bob (pos 9) ∷ [] })
    × (find? (has_identifier bob.issuer bob.subject) left.users ≡ some (user_of ids bob (pos 9)))
    × (join_tenants (user_of ids bob (pos 9)).id left.tenants left.memberships ≡ [])
    × IsRefused with_bob (resolve_or_provision_user store ids bob (pooled with_bob (pos 10) []))
unfolding join_tenants same
failed_membership_strands_user_example =
    failed_membership_strands_user store ids bob one_tenant (pos 9) [] refl refl refl refl home []
      with_bob (user_of ids bob (pos 9)) ids (pos 10) [] refl refl refl
