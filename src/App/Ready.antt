-- ===== src/App/Ready.antt =====
-- What New guarantees of the configuration of an application.
use mathlib.Core.Path.{subst}
use gotchi.Base.{
  ◌≡◌, refl, sym, ℤ, pos, leb_ℤ, ltb_ℤ, is_zero, Bool, true, false, Bool-cases, inl, inr, Option,
  none, some, List, [], ◌∷◌, Text, codes, is_empty, if◌then◌else◌, arith,
}
use gotchi.Errors.{Result, ok, ok_bind, ◌>>=◌}
use gotchi.Db.Manager as Db
use gotchi.Session as Session
use gotchi.Auth.Config as Auth
use gotchi.Password.Config as Password
use gotchi.App.Builder.{
  Builder, new_builder, or_empty_session, apply_defaults, validate_auth, validate_db,
  validate_builder,
}
use gotchi.App.Options.{AppOption, apply_all, new_application}
use gotchi.App.Safe.{IsSafe, apply_all-Kept}

abbrev pub is_set {ℓ} : {A : Type ℓ} → Option A → Bool
is_set none = false
is_set (some a) = true

-- sessions are configured where this is
abbrev pub HasSession {ℓ} : {A : Type ℓ} → Option A → Option Session.Config → Type 0
HasSession none s = Unit {0}
HasSession (some a) s = is_set s ≡ true

abbrev pub IsComplete : Option Auth.Config → Type 0
IsComplete none = Unit {0}
IsComplete (some c) =
    (is_empty c.issuer_url ≡ false)
    × (is_empty c.client_id ≡ false)
    × (is_empty c.client_secret ≡ false)
    × (is_empty c.redirect_url ≡ false)

auth-IsComplete : (o : Option Auth.Config) (u : Unit {0}) → validate_auth o ≡ ok u → IsComplete o
auth-IsComplete none u e = tt
auth-IsComplete (some c) u e = ground arith

has_database :
    (o : Option Db.Config) (rest : Result (Unit {0})) (u : Unit {0})
    → validate_db o rest ≡ ok u
    → (c : Db.Config) × (o ≡ some c) × (is_empty c.database_url ≡ false) × (rest ≡ ok u)
has_database none rest u e = absurd (cc)
has_database (some c) rest u e = elim (Bool-cases (is_empty c.database_url)) [
  | inl empty ↦ absurd (let failed = rw empty at e in cc)
  | inr url ↦ (c, refl, url, rw url at e)
]

session_set : (s : Option Session.Config) → is_set (or_empty_session s) ≡ true
session_set none = refl
session_set (some c) = refl

positive_timeout :
    (t : ℤ)
    → leb_ℤ (pos 0) t ≡ true
    → ltb_ℤ (pos 0) (if is_zero t then pos 5000000000 else t) ≡ true
positive_timeout t h = ground arith

port_set : (p : Text) → is_empty (if is_empty p then codes "3000" else p) ≡ false
port_set [] = refl
port_set (c ∷ p) = refl

module _ {Service : Type 0} where
  -- what applyDefaults makes of a configuration
  abbrev Defaulted : Builder Service → Builder Service → Type 0
  Defaulted b d =
      (d.port ≡ (if is_empty b.port then codes "3000" else b.port))
      × (d.shutdown_timeout
          ≡ (if is_zero b.shutdown_timeout then pos 5000000000 else b.shutdown_timeout))
      × (d.cors_config ≡ b.cors_config)
      × HasSession d.auth_config d.session_config
      × HasSession d.password_config d.session_config

  apply_defaults-Defaulted :
      (logger clock : Service) (b : Builder Service) (a : Option Auth.Config)
      (p : Option Password.PasswordConfig)
      → Defaulted b
          (apply_defaults logger clock (record b { auth_config = a; password_config = p }))
  unfolding apply_defaults
  apply_defaults-Defaulted logger clock b none none = (refl, refl, refl, tt, tt)
  apply_defaults-Defaulted logger clock b (some c) none =
      (refl, refl, refl, session_set b.session_config, tt)
  apply_defaults-Defaulted logger clock b none (some c) =
      (refl, refl, refl, tt, session_set b.session_config)
  apply_defaults-Defaulted logger clock b (some c) (some d) =
      let twice = session_set (or_empty_session b.session_config) in
      (refl, refl, refl, twice, twice)

  -- ready for Run
  abbrev pub IsReady : Builder Service → Type 0
  IsReady b =
      ((c : Db.Config) × (b.db_config ≡ some c) × (is_empty c.database_url ≡ false))
      × (is_empty b.port ≡ false)
      × (ltb_ℤ (pos 0) b.shutdown_timeout ≡ true)
      × IsSafe b.cors_config
      × IsComplete b.auth_config
      × HasSession b.auth_config b.session_config
      × HasSession b.password_config b.session_config

  -- An application that New returns, whatever the options and their order, has a database URL, a
  -- port, a shutdown timeout above zero, CORS origins without a wildcard beside credentials, all
  -- four settings of the OpenID Connect client if it has one, and sessions if it has this client or
  -- passwords.
  pub new_application-IsReady :
      (logger clock : Service) (options : List (AppOption Service)) (b : Builder Service)
      → new_application logger clock options ≡ ok b
      → IsReady b
  unfolding new_application validate_builder
  new_application-IsReady logger clock options b e =
      let checked = λ (x : Builder Service).
        let built = apply_defaults logger clock x in
        validate_builder built >>= (λ (u : Unit {0}). ok built) in
      let (x, applied, e') = ok_bind (apply_all options new_builder) checked b e in
      let built = apply_defaults logger clock x in
      let (u, valid, e'') = ok_bind (validate_builder built) (λ (u : Unit {0}). ok built) b e' in
      let same_builder : built ≡ b = cc in
      let (timeout, safe) = apply_all-Kept options new_builder x (refl, tt) applied in
      let (port, shutdown, cors, with_auth', with_password) =
        apply_defaults-Defaulted logger clock x x.auth_config x.password_config in
      let (c, set, url, rest) =
        has_database built.db_config (validate_auth built.auth_config) u valid in
      subst IsReady same_builder (
        (c, set, url),
        rw port (port_set x.port),
        rw shutdown (positive_timeout x.shutdown_timeout timeout),
        subst IsSafe (sym cors) safe,
        auth-IsComplete built.auth_config u rest,
        with_auth',
        with_password,
      )
