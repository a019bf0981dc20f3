-- ===== src/Password/Store/Register/Atomicity.antt =====
-- A registration that fails leaves no trace.
use gotchi.Base.{◌≡◌, refl, Option, none, some, Text}
use gotchi.Errors.{Error, Result, err}
use gotchi.Database.{Database}
use gotchi.Database.Connection.{Connection, M, pure, ◌>>=◌}
use gotchi.Database.Connection.Keeps.{Keeps, keeps_rules}
use gotchi.Database.Connection.Atomic.{
  InTx, exec-InTx, post-InTx, Undone, atomic_rules, LeavesNoTrace, LeavesNoTrace-if,
  LeavesNoTrace-raise, LeavesNoTrace-bind, LeavesNoTrace-then, LeavesNoTrace-transaction,
  lift-Quiet, or_wrap-Quiet, Quiet,
}
use gotchi.Identity.Types.{UserRef}
use gotchi.Identity.Invariant.{resolve_or_provision_user-Keeps}
use gotchi.Database.WellFormed.Users.{Sound}
use gotchi.Database.Connection.{exec}
use gotchi.Password.Store.Parts.{refuse_registered-Keeps, created-Keeps, send_verification-Keeps}
use gotchi.Password.Store.{PasswordIdentityStore, Draws, hash_password, Hasher}
use gotchi.Password.Store.Register.{
  RegisterRequest, register_in_tx, register_with, register, send_verification,
  register_with_email_verification,
}

hash_password-Quiet : (h : Hasher) (salt : Option Text) (p : Text) → Quiet (hash_password h salt p)
unfolding hash_password ◌>>=◌
hash_password-Quiet h none p = record { at = λ c. refl }
hash_password-Quiet h (some salt) p = record { at = λ c. refl }

module _ (d : Database) where
  run-InTx : (A : Type 0) (q : Database → Result (A × Database)) → Sound q → Keeps (InTx d) (exec q)
  run-InTx A q s = exec-InTx d q

  register_in_tx-Undone :
      (s : PasswordIdentityStore) (draws : Draws) (req : RegisterRequest) (hash : Text)
      (before_commit : UserRef → M (Unit {0}))
      → ((ref : UserRef) → Keeps (InTx d) (before_commit ref))
      → Undone d (register_in_tx s draws req hash before_commit)
  unfolding register_in_tx
  register_in_tx-Undone s draws req hash before_commit k =
      search
        (
          atomic_rules,
          refuse_registered-Keeps (InTx d) run-InTx,
          resolve_or_provision_user-Keeps (InTx d) run-InTx,
          created-Keeps (InTx d) run-InTx,
          k,
        )
        depth 12

register_with-LeavesNoTrace :
    (s : PasswordIdentityStore) (draws : Draws) (req : RegisterRequest)
    (before_commit : UserRef → M (Unit {0}))
    → ((d : Database) (ref : UserRef) → Keeps (InTx d) (before_commit ref))
    → LeavesNoTrace (register_with s draws req before_commit)
unfolding register_with
register_with-LeavesNoTrace s draws req hook k =
    search
      (
        LeavesNoTrace-if, LeavesNoTrace-raise, LeavesNoTrace-bind, lift-Quiet, or_wrap-Quiet,
        hash_password-Quiet, LeavesNoTrace-transaction, register_in_tx-Undone, k,
      )
      depth 8

-- Whatever statement fails, and for whatever reason a registration is refused, an error of
-- `Register` leaves the tables as they were.
pub register_atomic :
    (s : PasswordIdentityStore) (draws : Draws) (req : RegisterRequest) (c : Connection) (e : Error)
    → (register s draws req c).0 ≡ err e
    → (register s draws req c).1.tables ≡ c.tables
unfolding register
register_atomic s draws req =
    (register_with-LeavesNoTrace s draws req (λ _. pure tt) (λ d ref. search keeps_rules)).at

-- So does an error of `RegisterWithEmailVerification`, also one of the mail system.
pub register_with_email_verification_atomic :
    (s : PasswordIdentityStore) (draws : Draws) (req : RegisterRequest)
    (send : Option (Text → Text → Result (Unit {0}))) (c : Connection) (e : Error)
    → (register_with_email_verification s draws req send c).0 ≡ err e
    → (register_with_email_verification s draws req send c).1.tables ≡ c.tables
unfolding register_with_email_verification
register_with_email_verification_atomic s draws req send =
    (LeavesNoTrace-then _ _ (
      register_with-LeavesNoTrace s draws req (send_verification s draws req send)
        (λ d. send_verification-Keeps (InTx d) (post-InTx d) (run-InTx d) s draws req send))).at
