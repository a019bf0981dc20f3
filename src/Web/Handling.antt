-- ===== src/Web/Handling.antt =====
-- A handler as the code writes it: statements on the session, the connection and the cookies of the
-- response, each of which can end the handler with a response.
pub mod Ensures
use gotchi.Base.{Bool, List, ◌∷◌, String, if◌then◌else◌, ℕ, Text, ◌≡◌, refl}
use gotchi.Errors.{Result, ok, err, Error}
use gotchi.Database.Connection.{Connection, M}
use gotchi.Web.Http.{Response, Cookie, http_error}
use gotchi.Web.Session.{Sessions, Stored}

pub record World {ℓ} (S : Type ℓ) : Type ℓ where
  pub session : S
  pub connection : Connection
  pub cookies : List Cookie

pub data Step {ℓ} (A : Type ℓ) : Type ℓ where
  reply : Response → Step A
  step : A → Step A

abbrev pub H {ℓ} : Type 0 → Type ℓ → Type ℓ
H S A = World S → Step A × World S

module _ {S : Type 0} where
  module _ {ℓ} {A : Type ℓ} where
    -- `http.Error(…); return` and the like
    unfoldable pub answer : Response → H S A
    answer r w = (reply r, w)

    unfoldable pub give : A → H S A
    give a w = (step a, w)

    unfoldable pub or_answer : String → ℕ → Result A → H S A
    or_answer text status (ok a) w = (step a, w)
    or_answer text status (err e) w = (reply (http_error text status), w)

    -- the same with a response made from the error
    unfoldable pub or_reply : (Error → Response) → Result A → H S A
    or_reply f (ok a) w = (step a, w)
    or_reply f (err e) w = (reply (f e), w)

    -- a call of the store
    unfoldable pub ask : M A → H S (Result A)
    ask m w = let (r, c) = m w.connection in (step r, record w { connection = c })

  unfoldable pub insist : Bool → String → ℕ → H S (Unit {0})
  insist b text status w = (if b then step tt else reply (http_error text status), w)

  unfoldable pub set_cookie : Cookie → H S (Unit {0})
  set_cookie c w = (step tt, record w { cookies = c ∷ w.cookies })

  unfoldable pub get_session : H S S
  get_session w = (step w.session, w)

  unfoldable pub set_session : S → H S (Unit {0})
  set_session v w = (step tt, record w { session = v })

  module _ {ℓ κ} {A : Type ℓ} {B : Type κ} where
    abbrev pub proceed : Step A → (A → H S B) → H S B
    proceed (step a) f w = f a w
    proceed (reply r) f w = (reply r, w)

    infixl 5 ◌>>=◌ ◌>>◌
    -- opening this opens the other statements too
    unfoldable pub ◌>>=◌ : H S A → (A → H S B) → H S B
    unfolding answer give or_answer or_reply ask insist set_cookie get_session set_session
    ◌>>=◌ m f w = let (r, v) = m w in proceed r f v

    abbrev pub ◌>>◌ : H S A → H S B → H S B
    m >> n = m >>= λ _. n

abbrev pub response_of : Step Response → Response
response_of (reply r) = r
response_of (step r) = r

-- the response and what the handler leaves behind
abbrev pub run : {S : Type 0} → H S Response → World S → Response × World S
run h w = let (r, v) = h w in (response_of r, v)
