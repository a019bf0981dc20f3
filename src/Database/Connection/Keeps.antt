-- ===== src/Database/Connection/Keeps.antt =====
-- Predicates of a connection that a part of a function keeps, whether it returns or fails: one rule
-- for each way to build a part.
use gotchi.Base.{Bool, true, false, if◌then◌else◌, String}
use gotchi.Errors.{Error, Result, ok, err}
use gotchi.Database.Connection.{
  Connection, M, pure, raise, lift, attempt, or_wrap, ◌>>=◌, get_clock, continue,
}

pub record Keeps {ℓ} {A : Type ℓ} (P : Connection → Type 0) (m : M A) : Type ℓ where
  pub at : (c : Connection) → P c → P (m c).1

module _ {ℓ} {A : Type ℓ} {P : Connection → Type 0} where
  pub Keeps-pure : (a : A) → Keeps P (pure a)
  unfolding pure
  Keeps-pure a = record { at = λ c h. h }

  pub Keeps-raise : (e : Error) → Keeps P (raise {A = A} e)
  unfolding raise
  Keeps-raise e = record { at = λ c h. h }

  pub Keeps-lift : (r : Result A) → Keeps P (lift r)
  unfolding lift
  Keeps-lift r = record { at = λ c h. h }

  pub Keeps-attempt : (m : M A) → Keeps P m → Keeps P (attempt m)
  unfolding attempt
  Keeps-attempt m k = record { at = k.at }

  pub Keeps-or_wrap : (text : String) (m : M A) → Keeps P m → Keeps P (or_wrap text m)
  unfolding or_wrap
  Keeps-or_wrap text m k = record { at = k.at }

  pub Keeps-if : (b : Bool) (m n : M A) → Keeps P m → Keeps P n → Keeps P (if b then m else n)
  Keeps-if true m n km kn = km
  Keeps-if false m n km kn = kn

pub Keeps-get_clock : {P : Connection → Type 0} → Keeps P get_clock
unfolding get_clock
Keeps-get_clock = record { at = λ c h. h }

module _ {ℓ κ} {A : Type ℓ} {B : Type κ} {P : Connection → Type 0} where
  Keeps-continue :
      (r : Result A) (f : A → M B) (c : Connection)
      → ((a : A) → Keeps P (f a))
      → P c
      → P (continue r f c).1
  Keeps-continue (ok a) f c kf h = (kf a).at c h
  Keeps-continue (err e) f c kf h = h

  pub Keeps-bind :
      (m : M A) (f : A → M B) → Keeps P m → ((a : A) → Keeps P (f a)) → Keeps P (m >>= f)
  unfolding ◌>>=◌
  Keeps-bind m f km kf = record { at = λ c h. Keeps-continue (m c).0 f (m c).1 kf (km.at c h) }

pub ruleset keeps_rules = (
  Keeps-pure, Keeps-raise, Keeps-lift, Keeps-attempt, Keeps-or_wrap, Keeps-if, Keeps-get_clock,
  Keeps-bind,
)
