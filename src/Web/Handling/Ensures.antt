-- ===== src/Web/Handling/Ensures.antt =====
-- What a handler ensures of its response and of what it leaves behind, statement by statement.
use gotchi.Base.{◌≡◌, ◌∷◌, refl, ℕ, String, Bool, true, false}
use gotchi.Errors.{Result, ok, err, Error}
use gotchi.Database.Connection.{M}
use gotchi.Web.Http.{Response, Cookie, http_error}
use gotchi.Web.Handling.{
  World, H, run, or_answer, or_reply, insist, ask, set_cookie, get_session, ◌>>=◌,
}

pub record Ensures {S : Type 0} (P : Response → World S → Type 0) (h : H S Response) (w : World S)
    : Type 0 where
  pub at : P (run h w).0 (run h w).1

module _ {S : Type 0} (P : Response → World S → Type 0) where
  pub Ensures-or_answer {ℓ} :
      {A : Type ℓ} (text : String) (status : ℕ) (r : Result A) (f : A → H S Response) (w : World S)
      → ((e : Error) → r ≡ err e → P (http_error text status) w)
      → ((a : A) → r ≡ ok a → Ensures P (f a) w)
      → Ensures P (or_answer text status r >>= f) w
  unfolding ◌>>=◌
  Ensures-or_answer text status (ok a) f w fails goes = goes a refl
  Ensures-or_answer text status (err e) f w fails goes = record { at = fails e refl }

  pub Ensures-or_reply {ℓ} :
      {A : Type ℓ} (g : Error → Response) (r : Result A) (f : A → H S Response) (w : World S)
      → ((e : Error) → r ≡ err e → P (g e) w)
      → ((a : A) → r ≡ ok a → Ensures P (f a) w)
      → Ensures P (or_reply g r >>= f) w
  unfolding ◌>>=◌
  Ensures-or_reply g (ok a) f w fails goes = goes a refl
  Ensures-or_reply g (err e) f w fails goes = record { at = fails e refl }

  pub Ensures-insist :
      (b : Bool) (text : String) (status : ℕ) (f : Unit {0} → H S Response) (w : World S)
      → (b ≡ false → P (http_error text status) w)
      → (b ≡ true → Ensures P (f tt) w)
      → Ensures P (insist b text status >>= f) w
  unfolding ◌>>=◌
  Ensures-insist true text status f w fails goes = goes refl
  Ensures-insist false text status f w fails goes = record { at = fails refl }

  pub Ensures-ask {ℓ} :
      {A : Type ℓ} (m : M A) (f : Result A → H S Response) (w : World S)
      → Ensures P (f (m w.connection).0) (record w { connection = (m w.connection).1 })
      → Ensures P (ask m >>= f) w
  unfolding ◌>>=◌
  Ensures-ask m f w goes = record { at = goes.at }

  pub Ensures-set_cookie :
      (c : Cookie) (f : Unit {0} → H S Response) (w : World S)
      → Ensures P (f tt) (record w { cookies = c ∷ w.cookies })
      → Ensures P (set_cookie c >>= f) w
  unfolding ◌>>=◌
  Ensures-set_cookie c f w goes = record { at = goes.at }

  pub Ensures-get_session :
      (f : S → H S Response) (w : World S)
      → Ensures P (f w.session) w
      → Ensures P (get_session >>= f) w
  unfolding ◌>>=◌
  Ensures-get_session f w goes = record { at = goes.at }
