-- ===== src/Database/Connection/Fails.antt =====
-- Which PasswordErrors a part of a function can end with: one rule for each way to build a part.
-- Errors of the driver are internal: no PasswordError is in their chain.
use mathlib.Core.Path.{subst, subst⁻¹}
use gotchi.Base.{
  arith, ℕ, ◌≡◌, refl, Bool, true, false, Option, none, String, if◌then◌else◌, inl, inr,
}
use gotchi.Errors.{Sentinel, Error, wrap, as_password_error, Result, ok, err}
use gotchi.Database.{Database}
use gotchi.Database.Connection.{
  Connection, M, pure, raise, attempt, or_wrap, wrapped, continue, get_clock, exec, query,
  unchanged, finish, spend, begin, commit, deferring_rollback, ◌>>=◌,
}
use gotchi.Database.Connection.Runs.{exec_cases}

pub carry {ℓ} :
    {A : Type ℓ} (P : Error → Type 0) (e f : Error) → ◌≡◌ {A = Result A} (err e) (err f) → P e → P f
carry P e f same h = let equal : e ≡ f = cc in subst P equal h

pub record Fails {ℓ} {A : Type ℓ} (R : Option (Sentinel × ℕ) → Type 0) (m : M A) : Type ℓ where
  pub at : (c : Connection) (e : Error) → (m c).0 ≡ err e → R (as_password_error e)

-- every error of the part is internal
abbrev pub Internal {ℓ} : {A : Type ℓ} → M A → Type ℓ
Internal m = Fails (λ o. o ≡ none) m

module _ {ℓ} {A : Type ℓ} (R : Option (Sentinel × ℕ) → Type 0) where
  wrapped-err :
      (text : String) (r : Result A) (e : Error)
      → wrapped text r ≡ err e
      → ((f : Error) → r ≡ err f → R (as_password_error f))
      → R (as_password_error e)
  unfolding as_password_error
  wrapped-err text (ok a) e p h = absurd (cc)
  wrapped-err text (err f) e p h =
      carry {A = A} (λ x. R (as_password_error x)) (wrap text f) e p (h f refl)

module _ {ℓ} {A : Type ℓ} {R : Option (Sentinel × ℕ) → Type 0} where
  pub Fails-pure : (a : A) → Fails R (pure a)
  unfolding pure
  Fails-pure a = record { at = λ c e h. absurd (cc) }

  pub Fails-raise : (e : Error) → R (as_password_error e) → Fails R (raise {A = A} e)
  unfolding raise
  Fails-raise e h = record { at = λ c f p. carry (λ x. R (as_password_error x)) e f p h }

  pub Fails-attempt : (m : M A) → Fails R (attempt m)
  unfolding attempt
  Fails-attempt m = record { at = λ c e p. absurd (cc) }

  pub Fails-or_wrap : (text : String) (m : M A) → Fails R m → Fails R (or_wrap text m)
  unfolding or_wrap
  Fails-or_wrap text m k = record { at = λ c e p. wrapped-err R text (m c).0 e p (k.at c) }

  pub Fails-if : (b : Bool) (m n : M A) → Fails R m → Fails R n → Fails R (if b then m else n)
  Fails-if true m n k l = k
  Fails-if false m n k l = l

  pub Fails-deferring_rollback : (m : M A) → Fails R m → Fails R (deferring_rollback m)
  unfolding deferring_rollback
  Fails-deferring_rollback m k = record { at = k.at }

  pub Fails-of_Internal : R none → (m : M A) → Internal m → Fails R m
  Fails-of_Internal internal m k = record { at = λ c e p. subst⁻¹ R (k.at c e p) internal }

pub Fails-get_clock : {R : Option (Sentinel × ℕ) → Type 0} → Fails R get_clock
unfolding get_clock
Fails-get_clock = record { at = λ c e h. absurd (cc) }

module _ {ℓ κ} {A : Type ℓ} {B : Type κ} {R : Option (Sentinel × ℕ) → Type 0} where
  Fails-continue :
      (r : Result A) (f : A → M B) (c : Connection) (e : Error)
      → ((e' : Error) → r ≡ err e' → R (as_password_error e'))
      → ((a : A) → Fails R (f a))
      → (continue r f c).0 ≡ err e
      → R (as_password_error e)
  Fails-continue (ok a) f c e kr kf p = (kf a).at c e p
  Fails-continue (err e') f c e kr kf p =
      carry {A = B} (λ x. R (as_password_error x)) e' e p (kr e' refl)

  pub Fails-bind :
      (m : M A) (f : A → M B) → Fails R m → ((a : A) → Fails R (f a)) → Fails R (m >>= f)
  unfolding ◌>>=◌
  Fails-bind m f km kf = record { at = λ c e. Fails-continue (m c).0 f (m c).1 e (km.at c) kf }

  -- the rest knows that an error at hand is internal
  pub Fails-attempt_bind :
      (m : M A) (f : Result A → M B)
      → Internal m
      → ((r : Result A) → ((e : Error) → r ≡ err e → as_password_error e ≡ none) → Fails R (f r))
      → Fails R (attempt m >>= f)
  unfolding ◌>>=◌
  Fails-attempt_bind m f km kf = record { at = λ c. (kf (m c).0 (km.at c)).at (m c).1 }

module _ {ℓ} {A : Type ℓ} where
  finish-Internal :
      (r : Result (A × Database)) (c : Connection) (e : Error)
      → ((f : Error) → r ≡ err f → as_password_error f ≡ none)
      → (finish r c).0 ≡ err e
      → as_password_error e ≡ none
  finish-Internal (ok a) c e h p = absurd (cc)
  finish-Internal (err f) c e h p = carry {A = A} (λ x. as_password_error x ≡ none) f e p (h f refl)

  pub exec-Internal :
      (q : Database → Result (A × Database))
      → ((d : Database) (e : Error) → q d ≡ err e → as_password_error e ≡ none)
      → Internal (exec q)
  exec-Internal q h = record {
    at = λ c e p. elim (exec_cases q c) [
      | inl (f, c', internal, same_tables, stopped) ↦
          carry {A = A} (λ x. as_password_error x ≡ none) f e (rw stopped at p) internal
      | inr runs ↦ finish-Internal (q c.tables) (spend c) e (h c.tables) (rw runs at p)
    ];
  }

  unchanged-err : (d : Database) (r : Result A) (e : Error) → unchanged d r ≡ err e → r ≡ err e
  unchanged-err d (ok a) e p = absurd (cc)
  unchanged-err d (err f) e p = cc

  pub query-Internal :
      (q : Database → Result A)
      → ((d : Database) (e : Error) → q d ≡ err e → as_password_error e ≡ none)
      → Internal (query q)
  query-Internal q h =
      exec-Internal (λ d. unchanged d (q d)) (λ d e p. h d e (unchanged-err d (q d) e p))

pub begin-Internal : Internal begin
unfolding begin as_password_error
begin-Internal = record { at = λ c e p. ground arith }

pub commit-Internal : Internal commit
unfolding commit as_password_error
commit-Internal = record { at = λ c e p. ground arith }
