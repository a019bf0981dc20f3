-- ===== src/Database/WellFormed/Connections.antt =====
-- Whatever fails, the tables behind a connection stay well formed, and so do those to which a
-- rollback returns.
use mathlib.Core.Path.{subst}
use gotchi.Base.{
  ◌⊎◌, sym, refl, if◌then◌else◌, ◌≡◌, Bool, true, false, inl, inr, Option, none, some,
}
use gotchi.Errors.{Result, ok, err, no_rows, pg_error, plain, wrap, password_error, Error}
use gotchi.Database.{Database}
use gotchi.Database.Connection.{
  Connection, Mail, M, exec, begin, commit, rollback, deferring_rollback, count_hashing, post,
  fail_with, spend, abort, finish, next_fails, later,
}
use gotchi.Database.Connection.Keeps.{Keeps, keeps_rules}
use gotchi.Database.WellFormed.{IsWellFormed}
use gotchi.Database.WellFormed.Users.{Sound, Fine, user_statements}
use gotchi.Database.WellFormed.Passwords.{password_statements}

abbrev IsWellFormedBefore : Option Database → Type 0
IsWellFormedBefore none = Unit {0}
IsWellFormedBefore (some d) = IsWellFormed d

pub record Intact (c : Connection) : Type 0 where
  pub now : IsWellFormed c.tables
  pub before : IsWellFormedBefore c.snapshot

fail_with-Intact : (e : Error) (c : Connection) → Intact c → Intact (fail_with e c)
fail_with-Intact no_rows c i = i
fail_with-Intact (pg_error code) c i = record { now = i.now; before = i.before }
fail_with-Intact (plain s) c i = record { now = i.now; before = i.before }
fail_with-Intact (wrap s e) c i = record { now = i.now; before = i.before }
fail_with-Intact (password_error s n d) c i = record { now = i.now; before = i.before }

finish-Intact {ℓ} :
    {A : Type ℓ} (r : Result (A × Database)) (c : Connection)
    → Fine r
    → Intact c
    → Intact (finish r c).1
finish-Intact (ok (a, d)) c w i = record { now = w; before = i.before }
finish-Intact (err e) c w i = fail_with-Intact e c i

spend-Intact : (c : Connection) → Intact c → Intact (spend c)
spend-Intact c i = record { now = i.now; before = i.before }

abort-Intact : (c : Connection) → Intact c → Intact (abort c)
abort-Intact c i = record { now = i.now; before = i.before }

if-Intact {ℓ} :
    {A : Type ℓ} (b : Bool) (x y : Result A × Connection)
    → Intact x.1
    → Intact y.1
    → Intact (if b then x else y).1
if-Intact true x y h k = h
if-Intact false x y h k = k

pub exec-Intact {ℓ} :
    {A : Type ℓ} (q : Database → Result (A × Database)) → Sound q → Keeps Intact (exec q)
unfolding exec
exec-Intact q s = record {
  at = λ c i.
      let left = spend-Intact c i in
      if-Intact c.aborted _ _ i (
        if-Intact (next_fails c.faults) _ _ (abort-Intact (spend c) left)
          (finish-Intact (q c.tables) (spend c) (s.at c.tables i.now) left));
}

pub begin-Intact : Keeps Intact begin
unfolding begin
begin-Intact = record {
  at = λ c i.
      if-Intact (next_fails c.faults) _ _ (spend-Intact c i)
        (record { now = i.now; before = i.now });
}

-- what a rollback returns to
rollback-Intact : (c : Connection) → Intact c → Intact (rollback c)
unfolding rollback
rollback-Intact c i =
    elim c.snapshot
        as (λ b.
          IsWellFormedBefore b
          → Intact (elim b [
            | none ↦ c
            | some d ↦ record c { tables = d; snapshot = none; aborted = false }
          ])) [ none ↦ λ _. i | some d ↦ λ w. record { now = w; before = tt } ]
      i.before

pub deferring_rollback-Intact {ℓ} :
    {A : Type ℓ} (m : M A) → Keeps Intact m → Keeps Intact (deferring_rollback m)
unfolding deferring_rollback
deferring_rollback-Intact m k = record { at = λ c i. rollback-Intact (m c).1 (k.at c i) }

abbrev ending : Connection → Result (Unit {0}) × Connection
ending c =
    if c.aborted
    then (err (plain "commit unexpectedly resulted in rollback"), rollback c)
    else if next_fails c.faults
    then (err (plain "commit failed"), rollback (spend c))
    else (ok tt, record c { snapshot = none; faults = later c.faults })

ending-Intact : (c : Connection) → Intact c → Intact (ending c).1
ending-Intact c i = if-Intact c.aborted _ _ (rollback-Intact c i) (
    if-Intact (next_fails c.faults) _ _ (rollback-Intact (spend c) (spend-Intact c i))
      (record { now = i.now; before = tt }))

abbrev commit_with : Connection → Option Database → Result (Unit {0}) × Connection
commit_with c b = elim b [ none ↦ (err (plain "tx is closed"), c) | some d ↦ ending c ]

commit_cases :
    (c : Connection) → (commit c ≡ (err (plain "tx is closed"), c)) ⊎ (commit c ≡ ending c)
unfolding commit
commit_cases c =
    elim c.snapshot
      as (λ b. (commit_with c b ≡ (err (plain "tx is closed"), c)) ⊎ (commit_with c b ≡ ending c)) [
        | none ↦ inl refl
        | some d ↦ inr refl
      ]

pub commit-Intact : Keeps Intact commit
commit-Intact = record {
  at = λ c i. elim (commit_cases c) [
    | inl closed ↦ subst (λ r. Intact r.1) (sym closed) i
    | inr open' ↦ subst (λ r. Intact r.1) (sym open') (ending-Intact c i)
  ];
}

pub count_hashing-Intact : Keeps Intact count_hashing
unfolding count_hashing
count_hashing-Intact = record { at = λ c i. record { now = i.now; before = i.before } }

pub post-Intact : (mail : Mail) (r : Result (Unit {0})) → Keeps Intact (post mail r)
unfolding post
post-Intact mail r = record { at = λ c i. record { now = i.now; before = i.before } }

pub ruleset intact_rules = (
  keeps_rules, user_statements, password_statements, exec-Intact, begin-Intact,
  deferring_rollback-Intact, commit-Intact, count_hashing-Intact, post-Intact,
)
