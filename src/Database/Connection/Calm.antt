-- ===== src/Database/Connection/Calm.antt =====
-- Connections on which no statement fails for a reason of its own.
use gotchi.Base.{ℕ, ℤ, ◌≡◌, refl, false, none, some, []}
use gotchi.Errors.{ok}
use gotchi.Database.{Database}
use gotchi.Database.Connection.{Connection, begin, commit, rollback}

-- outside any transaction
abbrev pub idle : Database → ℤ → ℕ → Connection
idle d now n = record {
  tables = d;
  snapshot = none;
  aborted = false;
  faults = [];
  clock = now;
  hashings = n;
  mails = [];
}

-- in a transaction that began with the tables `before`
abbrev pub inside : Database → Database → ℤ → ℕ → Connection
inside before d now n = record {
  tables = d;
  snapshot = some before;
  aborted = false;
  faults = [];
  clock = now;
  hashings = n;
  mails = [];
}

module _ (d : Database) (now : ℤ) (n : ℕ) where
  pub begin-idle : begin (idle d now n) ≡ (ok tt, inside d d now n)
  unfolding begin
  begin-idle = refl

  pub rollback-idle : rollback (idle d now n) ≡ idle d now n
  unfolding rollback
  rollback-idle = refl

  pub rollback-inside : (before : Database) → rollback (inside before d now n) ≡ idle before now n
  unfolding rollback
  rollback-inside before = refl

  pub commit-inside : (before : Database) → commit (inside before d now n) ≡ (ok tt, idle d now n)
  unfolding commit
  commit-inside before = refl
