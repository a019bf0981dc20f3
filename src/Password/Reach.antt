-- ===== src/Password/Reach.antt =====
-- The tables that calls of auth/password/store.go and auth/postgres_store.go can lead to, from the
-- empty ones of a fresh migration: in any order, with any statement failing at any time.
use gotchi.Base.{ℕ, ℤ, Bool, Option, none, some, ◌≡◌, refl, [], List, Text, false}
use gotchi.Errors.{Result, ok, err}
use gotchi.Database.{Database, empty}
use gotchi.Database.Connection.{Connection}
use gotchi.Database.WellFormed.{IsWellFormed}
use gotchi.Database.WellFormed.Connections.{Intact}
use gotchi.Identity.Members.{IsMember, resolve_or_provision_user-IsMember}
use gotchi.Identity.Types.{Identity, UserRef}
use gotchi.Identity.Store.{NewIds, resolve_or_provision_user}
use gotchi.Password.Store.{PasswordIdentityStore, Draws}
use gotchi.Password.Store.Register.{
  RegisterRequest, register, register_with_email_verification, initiate_email_verification,
}
use gotchi.Password.Store.Authenticate.{authenticate}
use gotchi.Password.Store.Tokens.{
  change_password, initiate_password_reset, complete_password_reset, verify_email,
}
use gotchi.Password.Store.Intact.{
  resolve_or_provision_user-Intact, register-Intact, register_with_email_verification-Intact,
  initiate_email_verification-Intact, authenticate-Intact, change_password-Intact,
  initiate_password_reset-Intact, complete_password_reset-Intact, verify_email-Intact,
}

-- a connection taken from the pool, over these tables
abbrev pub taken : Database → ℤ → List Bool → Connection
taken d now faults = record {
  tables = d;
  snapshot = none;
  aborted = false;
  faults = faults;
  clock = now;
  hashings = 0;
  mails = [];
}

-- whom a call of ResolveOrProvisionUser lets in
abbrev pub admitted : Result UserRef → Option UserRef
admitted (ok ref) = some ref
admitted (err e) = none

-- who was let in has a membership of a tenant
abbrev pub HasTenant : Database → Option UserRef → Type 0
HasTenant d none = Unit {0}
HasTenant d (some ref) = IsMember d ref

-- One call, on a connection: whom it lets in through the identity store, and what it makes of the
-- tables.
pub data Call (s : PasswordIdentityStore) (c : Connection)
    : Option UserRef → Database → Type 0 where
  provisions :
      (ids : NewIds) (i : Identity)
      → Call s c
          (admitted (resolve_or_provision_user s.inner ids i c).0)
          (resolve_or_provision_user s.inner ids i c).1.tables
  registers :
      (draws : Draws) (req : RegisterRequest) → Call s c none (register s draws req c).1.tables
  registers_by_mail :
      (draws : Draws) (req : RegisterRequest) (send : Option (Text → Text → Result (Unit {0})))
      → Call s c none (register_with_email_verification s draws req send c).1.tables
  asks_verification :
      (draws : Draws) (id : ℕ) → Call s c none (initiate_email_verification s draws id c).1.tables
  logs_in :
      (draws : Draws) (email password ip : Text)
      → Call s c none (authenticate s draws email password ip c).1.tables
  changes :
      (draws : Draws) (id : ℕ) (old new : Text)
      → Call s c none (change_password s draws id old new c).1.tables
  asks_reset :
      (draws : Draws) (email : Text)
      → Call s c none (initiate_password_reset s draws email c).1.tables
  resets :
      (draws : Draws) (token password : Text)
      → Call s c none (complete_password_reset s draws token password c).1.tables
  verifies : (draws : Draws) (token : Text) → Call s c none (verify_email s draws token c).1.tables

-- The tables behind any number of calls, and whom the last one let in.
pub data Reachable (s : PasswordIdentityStore) : Option UserRef → Database → Type 0 where
  migrated : Reachable s none empty
  called :
      (d : Database) (now : ℤ) (faults : List Bool) (d' : Database) (before after : Option UserRef)
      → Reachable s before d
      → Call s (taken d now faults) after d'
      → Reachable s after d'

empty-IsWellFormed : IsWellFormed empty
empty-IsWellFormed = record {
  users = tt;
  identifiers = tt;
  addresses = tt;
  tenants = tt;
  memberships = tt;
  credentials = tt;
  members = tt;
  member_tenants = tt;
  credential_owners = tt;
  attempt_owners = tt;
  token_owners = tt;
}

Call-IsWellFormed :
    (s : PasswordIdentityStore) (c : Connection) (o : Option UserRef) (d : Database)
    → Intact c
    → Call s c o d
    → IsWellFormed d
Call-IsWellFormed s c _ _ i (Call.provisions ids j) =
    ((resolve_or_provision_user-Intact s.inner ids j).at c i).now
Call-IsWellFormed s c _ _ i (Call.registers draws req) = ((register-Intact s draws req).at c i).now
Call-IsWellFormed s c _ _ i (Call.registers_by_mail draws req send) =
    ((register_with_email_verification-Intact s draws req send).at c i).now
Call-IsWellFormed s c _ _ i (Call.asks_verification draws id) =
    ((initiate_email_verification-Intact s draws id).at c i).now
Call-IsWellFormed s c _ _ i (Call.logs_in draws email password ip) =
    ((authenticate-Intact s draws email password ip).at c i).now
Call-IsWellFormed s c _ _ i (Call.changes draws id old new) =
    ((change_password-Intact s draws id old new).at c i).now
Call-IsWellFormed s c _ _ i (Call.asks_reset draws email) =
    ((initiate_password_reset-Intact s draws email).at c i).now
Call-IsWellFormed s c _ _ i (Call.resets draws token password) =
    ((complete_password_reset-Intact s draws token password).at c i).now
Call-IsWellFormed s c _ _ i (Call.verifies draws token) =
    ((verify_email-Intact s draws token).at c i).now

provisions-HasTenant :
    (s : PasswordIdentityStore) (c : Connection) (ids : NewIds) (i : Identity) (r : Result UserRef)
    → (resolve_or_provision_user s.inner ids i c).0 ≡ r
    → HasTenant (resolve_or_provision_user s.inner ids i c).1.tables (admitted r)
provisions-HasTenant s c ids i (ok ref) e = resolve_or_provision_user-IsMember s.inner ids i c ref e
provisions-HasTenant s c ids i (err x) e = tt

Call-HasTenant :
    (s : PasswordIdentityStore) (c : Connection) (o : Option UserRef) (d : Database)
    → Call s c o d
    → HasTenant d o
Call-HasTenant s c _ _ (Call.provisions ids j) = provisions-HasTenant s c ids j _ refl
Call-HasTenant s c _ _ (Call.registers draws req) = tt
Call-HasTenant s c _ _ (Call.registers_by_mail draws req send) = tt
Call-HasTenant s c _ _ (Call.asks_verification draws id) = tt
Call-HasTenant s c _ _ (Call.logs_in draws email password ip) = tt
Call-HasTenant s c _ _ (Call.changes draws id old new) = tt
Call-HasTenant s c _ _ (Call.asks_reset draws email) = tt
Call-HasTenant s c _ _ (Call.resets draws token password) = tt
Call-HasTenant s c _ _ (Call.verifies draws token) = tt

-- Whatever calls are made, in whatever order, with whatever statements failing: no two users share an
-- id, an identifier, or an address of one issuer that is not empty, no two tenants an id, no
-- membership comes twice, no user has two credentials, and each membership, credential, attempt and
-- token is that of a user who exists, the memberships in tenants that exist; and where the last call
-- was ResolveOrProvisionUser and it returned a user, this user has a membership of a tenant.
pub reachable-IsWellFormed :
    (s : PasswordIdentityStore) (last : Option UserRef) (d : Database)
    → Reachable s last d
    → IsWellFormed d × HasTenant d last
reachable-IsWellFormed s _ _ Reachable.migrated = (empty-IsWellFormed, tt)
reachable-IsWellFormed s _ _ (Reachable.called d now faults d' before after r step) =
    let c = taken d now faults in
    let intact : Intact c = record { now = (reachable-IsWellFormed s before d r).0; before = tt } in
    (Call-IsWellFormed s c after d' intact step, Call-HasTenant s c after d' step)
