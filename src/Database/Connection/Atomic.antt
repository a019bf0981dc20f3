-- ===== src/Database/Connection/Atomic.antt =====
-- What a transaction guarantees: a part that stays inside it, and a body whose every failure is
-- undone by the deferred rollback.
use gotchi.Base.{◌≡◌, refl, ◌∙◌, Bool, true, false, if◌then◌else◌, String, some, arith}
use gotchi.Errors.{Error, Result, ok, err}
use gotchi.Database.{Database}
use gotchi.Database.Connection.{
  Connection, M, pure, raise, lift, ◌>>=◌, continue, wrapped, or_wrap, exec, begin, commit,
  rollback, deferring_rollback, count_hashing, Mail, post,
}
use gotchi.Database.Connection.Keeps.{Keeps, Keeps-bind, keeps_rules}

-- A transaction that began with these tables is open.
abbrev pub InTx : Database → Connection → Type 0
InTx d c = c.snapshot ≡ some d

module _ {ℓ} {A : Type ℓ} (d : Database) where
  pub exec-InTx : (q : Database → Result (A × Database)) → Keeps (InTx d) (exec q)
  unfolding exec
  exec-InTx q = record { at = λ c h. ground arith }

pub count_hashing-InTx : (d : Database) → Keeps (InTx d) count_hashing
unfolding count_hashing
count_hashing-InTx d = record { at = λ c h. h }

pub post-InTx : (d : Database) (m : Mail) (r : Result (Unit {0})) → Keeps (InTx d) (post m r)
unfolding post
post-InTx d m r = record { at = λ c h. h }

-- Wherever the part fails, the rollback restores the tables.
pub record Undone {ℓ} {A : Type ℓ} (d : Database) (m : M A) : Type ℓ where
  pub at :
      (c : Connection) → InTx d c → (e : Error) → (m c).0 ≡ err e → (rollback (m c).1).tables ≡ d

wrapped-eq-err {ℓ} :
    {A : Type ℓ} (text : String) (r : Result A) (e : Error)
    → wrapped text r ≡ err e
    → (f : Error) × (r ≡ err f)
wrapped-eq-err text (ok a) e h = cc
wrapped-eq-err text (err f) e h = (f, refl)

module _ {ℓ} {A : Type ℓ} {d : Database} where
  pub Undone-of_Keeps : (m : M A) → Keeps (InTx d) m → Undone d m
  unfolding rollback
  Undone-of_Keeps m k = record { at = λ c h e _. rw (k.at c h) }

  pub Undone-pure : (a : A) → Undone d (pure a)
  unfolding pure
  Undone-pure a = record { at = λ c h e p. absurd (cc) }

  pub Undone-or_wrap : (text : String) (m : M A) → Undone d m → Undone d (or_wrap text m)
  unfolding or_wrap
  Undone-or_wrap text m u = record {
    at = λ c h e p. let (f, q) = wrapped-eq-err text (m c).0 e p in u.at c h f q;
  }

module _ {ℓ κ} {A : Type ℓ} {B : Type κ} {d : Database} where
  Undone-continue :
      (r : Result A) (f : A → M B) (c : Connection)
      → InTx d c
      → ((a : A) → Undone d (f a))
      → (e : Error) → (continue r f c).0 ≡ err e
      → (rollback (continue r f c).1).tables ≡ d
  unfolding rollback
  Undone-continue (ok a) f c h u e p = (u a).at c h e p
  Undone-continue (err e') f c h u e p = rw h

  -- first parts that stay inside the transaction
  pub Undone-bind :
      (m : M A) (f : A → M B) → Keeps (InTx d) m → ((a : A) → Undone d (f a)) → Undone d (m >>= f)
  unfolding ◌>>=◌
  Undone-bind m f km u = record {
    at = λ c h e p. Undone-continue (m c).0 f (m c).1 (km.at c h) u e p;
  }

module _ {ℓ} {A : Type ℓ} {d : Database} where
  -- a commit that fails has rolled back
  pub Undone-commit : (text : String) (a : A) → Undone d (or_wrap text commit >>= λ _. pure a)
  unfolding ◌>>=◌ commit
  Undone-commit text a = record { at = λ c h e p. ground arith }

  pub tables_of_Undone :
      (m : M A) (c : Connection) (e : Error)
      → Undone d m
      → InTx d c
      → (deferring_rollback m c).0 ≡ err e
      → (deferring_rollback m c).1.tables ≡ d
  unfolding deferring_rollback
  tables_of_Undone m c e u h p = u.at c h e p

begin-InTx :
    (text : String) (c : Connection) (x : Unit {0})
    → (or_wrap text begin c).0 ≡ ok x
    → ((or_wrap text begin c).1.snapshot ≡ some c.tables)
unfolding or_wrap begin
begin-InTx text c x h = ground arith

begin_quiet : (text : String) (c : Connection) → (or_wrap text begin c).1.tables ≡ c.tables
unfolding or_wrap begin
begin_quiet text c = ground arith

-- A part that writes nothing.
pub record Quiet {ℓ} {A : Type ℓ} (m : M A) : Type ℓ where
  pub at : (c : Connection) → (m c).1.tables ≡ c.tables

-- Wherever the part fails, the tables are those of its start.
pub record LeavesNoTrace {ℓ} {A : Type ℓ} (m : M A) : Type ℓ where
  pub at : (c : Connection) (e : Error) → (m c).0 ≡ err e → (m c).1.tables ≡ c.tables

module _ {ℓ} {A : Type ℓ} where
  pub lift-Quiet : (r : Result A) → Quiet (lift r)
  unfolding lift
  lift-Quiet r = record { at = λ c. refl }

  pub or_wrap-Quiet : (text : String) (m : M A) → Quiet m → Quiet (or_wrap text m)
  unfolding or_wrap
  or_wrap-Quiet text m q = record { at = q.at }

  pub LeavesNoTrace-raise : (e : Error) → LeavesNoTrace (raise {A = A} e)
  unfolding raise
  LeavesNoTrace-raise e = record { at = λ c f h. refl }

  pub LeavesNoTrace-if :
      (b : Bool) (m n : M A)
      → LeavesNoTrace m
      → LeavesNoTrace n
      → LeavesNoTrace (if b then m else n)
  LeavesNoTrace-if true m n u v = u
  LeavesNoTrace-if false m n u v = v

module _ {ℓ κ} {A : Type ℓ} {B : Type κ} where
  continue-LeavesNoTrace :
      (d : Database) (r : Result A) (f : A → M B) (c : Connection)
      → c.tables ≡ d
      → ((a : A) → r ≡ ok a → (e : Error) → (f a c).0 ≡ err e → (f a c).1.tables ≡ d)
      → (e : Error) → (continue r f c).0 ≡ err e
      → (continue r f c).1.tables ≡ d
  continue-LeavesNoTrace d (ok a) f c same u e h = u a refl e h
  continue-LeavesNoTrace d (err e') f c same u e h = same

  -- a part that writes nothing, and then one that leaves no trace
  pub LeavesNoTrace-bind :
      (m : M A) (f : A → M B) → Quiet m → ((a : A) → LeavesNoTrace (f a)) → LeavesNoTrace (m >>= f)
  unfolding ◌>>=◌
  LeavesNoTrace-bind m f q u = record {
    at = λ c.
        continue-LeavesNoTrace c.tables (m c).0 f (m c).1 (q.at c)
          (λ a _ e h. (u a).at (m c).1 e h ∙ q.at c);
  }

  -- a part that leaves no trace, and then a value
  pub LeavesNoTrace-then :
      (m : M A) (g : A → B) → LeavesNoTrace m → LeavesNoTrace (m >>= λ a. pure (g a))
  unfolding ◌>>=◌
  LeavesNoTrace-then m g u = record { at = λ c e h. go (m c).0 (m c).1 (u.at c) e h }
    where
      go :
          {d : Database} (r : Result A) (c' : Connection)
          → ((e : Error) → r ≡ err e → c'.tables ≡ d)
          → (e : Error) → (continue r (λ a. pure (g a)) c').0 ≡ err e
          → (continue r (λ a. pure (g a)) c').1.tables ≡ d
      go (ok a) c' k e h = cc
      go (err e') c' k e h = k e' refl

module _ {ℓ} {A : Type ℓ} where
  pub LeavesNoTrace-transaction :
      (text : String) (m : M A)
      → ((d : Database) → Undone d m)
      → LeavesNoTrace (or_wrap text begin >>= λ _. deferring_rollback m)
  unfolding ◌>>=◌
  LeavesNoTrace-transaction text m u = record {
    at = λ c.
        continue-LeavesNoTrace c.tables (or_wrap text begin c).0 (λ _. deferring_rollback m)
          (or_wrap text begin c).1 (begin_quiet text c)
          (λ a h e p. tables_of_Undone m _ e (u c.tables) (begin-InTx text c a h) p);
  }

pub ruleset atomic_rules =
    (keeps_rules, exec-InTx, count_hashing-InTx, Undone-bind, Undone-commit, Undone-of_Keeps)
