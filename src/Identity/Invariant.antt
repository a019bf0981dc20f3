-- ===== src/Identity/Invariant.antt =====
-- The identity store keeps every predicate of a connection that its statements keep.
use gotchi.Base.{List, [], ◌∷◌, ℕ}
use gotchi.Errors.{Error, Result, ok, err}
use gotchi.Database.{Database, User, Role}
use gotchi.Database.Users.{Membership}
use gotchi.Database.Connection.Keeps.{Keeps, keeps_rules}
use gotchi.Identity.Types.{Identity}
use gotchi.Identity.Store.{
  PostgresIdentityStore, NewIds, list_memberships, get_tenant_display, create_tenant,
  first_or_create, first_tenant_or_create, create_membership, some_membership, provision, resolve,
  resolve_or_provision_user,
}
use gotchi.Database.WellFormed.Users.{Sound, user_statements}
use gotchi.Database.Connection.{Connection, exec}

ruleset statements = (keeps_rules, user_statements)

module _ (P : Connection → Type 0)
    (run : (A : Type 0) (q : Database → Result (A × Database)) → Sound q → Keeps P (exec q)) where
  list_memberships-Keeps : (id : ℕ) → Keeps P (list_memberships id)
  unfolding list_memberships
  list_memberships-Keeps id = search (statements, run)

  first_or_create-Keeps :
      (s : PostgresIdentityStore) (new : NewIds) (r : Result ℕ) → Keeps P (first_or_create s new r)
  unfolding first_or_create create_tenant
  first_or_create-Keeps s new (ok id) = search keeps_rules
  first_or_create-Keeps s new (err e) = search (statements, run)

  create_membership-Keeps :
      (user_id tenant_id : ℕ) (role : Role) → Keeps P (create_membership user_id tenant_id role)
  unfolding create_membership get_tenant_display
  create_membership-Keeps user_id tenant_id role = search (statements, run) depth 8

  some_membership-Keeps :
      (e : Error) (u : User) (ms : List Membership) → Keeps P (some_membership e u ms)
  unfolding some_membership
  some_membership-Keeps e u [] = search keeps_rules
  some_membership-Keeps e u (m ∷ ms) = search keeps_rules

  first_tenant_or_create-Keeps :
      (s : PostgresIdentityStore) (new : NewIds) → Keeps P (first_tenant_or_create s new)
  unfolding first_tenant_or_create
  first_tenant_or_create-Keeps s new = search (statements, run, first_or_create-Keeps)

  ruleset parts = (
    statements, list_memberships-Keeps, create_membership-Keeps, some_membership-Keeps,
    first_tenant_or_create-Keeps,
  )

  provision-Keeps :
      (s : PostgresIdentityStore) (new : NewIds) (i : Identity) → Keeps P (provision s new i)
  unfolding provision
  provision-Keeps s new i = search (parts, run) depth 10

  resolve-Keeps :
      (s : PostgresIdentityStore) (new : NewIds) (i : Identity) (r : Result User)
      → Keeps P (resolve s new i r)
  unfolding resolve
  resolve-Keeps s new i (ok u) = search parts
  resolve-Keeps s new i (err e) = search (parts, provision-Keeps)

  pub resolve_or_provision_user-Keeps :
      (s : PostgresIdentityStore) (new : NewIds) (i : Identity)
      → Keeps P (resolve_or_provision_user s new i)
  unfolding resolve_or_provision_user
  resolve_or_provision_user-Keeps s new i = search (parts, run, resolve-Keeps)
