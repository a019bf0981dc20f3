-- ===== src/App/Safe.antt =====
-- The CORS origins and the shutdown timeout that the options of app/option.go let through.
use mathlib.Core.Path.{subst}
use gotchi.Base.{
  ◌≡◌, ◌≢◌, ℤ, pos, leb_ℤ, Bool, true, false, ◌&&◌, Bool-cases, inl, inr, Option, none, some, List,
  [], ◌∷◌, Text, All, any, arith,
}
use gotchi.Errors.{ok, ok_bind}
use gotchi.App.Builder.{CorsConfig, cors_defaults, is_wildcard, validate_cors, Builder}
use gotchi.App.Options.{
  AppOption, with_database, with_port, with_database_config, with_shutdown_timeout, with_auth,
  with_identity_store, with_login_handler, with_open_api, with_clock, with_logger,
  with_password_auth, with_sessions, with_otel, with_cors, with_cors_config, with_core_migrations,
  with_auth_migrations, with_password_migrations, with_no_default_middleware, with_migrations,
  with_middleware, with_module, set_cors, apply, apply_all,
}

-- at least one origin, and no wildcard together with credentials
abbrev pub IsSafe : Option CorsConfig → Type 0
IsSafe none = Unit {0}
IsSafe (some c) =
    (c.allowed_origins ≢ [])
    × (c.allow_credentials ≡ true → All (λ o. is_wildcard o ≡ false) c.allowed_origins)

no_wildcard :
    (os : List Text)
    → any (λ o. is_wildcard o && true) os ≡ false
    → All (λ o. is_wildcard o ≡ false) os
no_wildcard [] h = tt
no_wildcard (o ∷ os) h = elim (Bool-cases (is_wildcard o)) [
  | inl wild ↦ absurd (let e = rw wild at h in cc)
  | inr tame ↦ (tame, no_wildcard os (rw tame at h))
]

origins-IsSafe :
    (os : List Text) (b : Bool) (u : Unit {0})
    → validate_cors (record { allowed_origins = os; allow_credentials = b }) ≡ ok u
    → IsSafe (some (record { allowed_origins = os; allow_credentials = b }))
unfolding validate_cors
origins-IsSafe [] b u e = absurd (cc)
origins-IsSafe (o ∷ os) false u e = (λ empty. cc, λ h. absurd (cc))
origins-IsSafe (o ∷ os) true u e = elim (Bool-cases (any (λ o. is_wildcard o && true) (o ∷ os))) [
  | inl wild ↦ absurd (let failed = rw wild at e in cc)
  | inr tame ↦ (λ empty. cc, λ h. no_wildcard (o ∷ os) tame)
]

validate_cors-IsSafe : (c : CorsConfig) (u : Unit {0}) → validate_cors c ≡ ok u → IsSafe (some c)
validate_cors-IsSafe c u e = origins-IsSafe c.allowed_origins c.allow_credentials u e

module _ {Service : Type 0} where
  -- what each option keeps
  abbrev pub Kept : Builder Service → Type 0
  Kept b = (leb_ℤ (pos 0) b.shutdown_timeout ≡ true) × IsSafe b.cors_config

  keep : (b b' : Builder Service) → Kept b → ok b ≡ ok b' → Kept b'
  keep b b' h e = let same_builder : b ≡ b' = cc in subst Kept same_builder h

  set_cors-Kept :
      (c : CorsConfig) (b b' : Builder Service) → Kept b → set_cors c b ≡ ok b' → Kept b'
  unfolding set_cors
  set_cors-Kept c b b' (timeout, safe) e =
      let (u, valid, e') =
        ok_bind (validate_cors c) (λ u. ok (record b { cors_config = some c })) b' e in
      keep (record b { cors_config = some c }) b' (timeout, validate_cors-IsSafe c u valid) e'

  set_timeout-Kept :
      (t : ℤ) (b b' : Builder Service)
      → Kept b
      → apply (with_shutdown_timeout t) b ≡ ok b'
      → Kept b'
  unfolding apply
  set_timeout-Kept t b b' (timeout, safe) e = elim (Bool-cases (leb_ℤ t (pos 0))) [
    | inl small ↦ absurd (let failed = rw small at e in cc)
    | inr large ↦
        let positive : leb_ℤ (pos 0) t ≡ true = ground arith in
        keep (record b { shutdown_timeout = t }) b' (positive, safe) (rw large at e)
  ]

  apply-Kept :
      (o : AppOption Service) (b b' : Builder Service) → Kept b → apply o b ≡ ok b' → Kept b'
  unfolding apply
  apply-Kept (with_shutdown_timeout t) b b' h e = set_timeout-Kept t b b' h e
  apply-Kept (with_cors first rest) b b' h e = set_cors-Kept (cors_defaults first rest) b b' h e
  apply-Kept (with_cors_config c) b b' h e = set_cors-Kept c b b' h e
  apply-Kept (with_database url) b b' h e = keep _ b' h e
  apply-Kept (with_port port) b b' h e = keep _ b' h e
  apply-Kept (with_database_config c) b b' h e = keep _ b' h e
  apply-Kept (with_auth c) b b' h e = keep _ b' h e
  apply-Kept (with_identity_store s) b b' h e = keep _ b' h e
  apply-Kept (with_login_handler s) b b' h e = keep _ b' h e
  apply-Kept (with_open_api s) b b' h e = keep _ b' h e
  apply-Kept (with_clock s) b b' h e = keep _ b' h e
  apply-Kept (with_logger s) b b' h e = keep _ b' h e
  apply-Kept (with_password_auth c) b b' h e = keep _ b' h e
  apply-Kept (with_sessions c) b b' h e = keep _ b' h e
  apply-Kept (with_otel c) b b' h e = keep _ b' h e
  apply-Kept with_core_migrations b b' h e = keep _ b' h e
  apply-Kept with_auth_migrations b b' h e = keep _ b' h e
  apply-Kept with_password_migrations b b' h e = keep _ b' h e
  apply-Kept with_no_default_middleware b b' h e = keep _ b' h e
  apply-Kept (with_migrations l) b b' h e = keep _ b' h e
  apply-Kept (with_middleware l) b b' h e = keep _ b' h e
  apply-Kept (with_module l) b b' h e = keep _ b' h e

  pub apply_all-Kept :
      (options : List (AppOption Service)) (b b' : Builder Service)
      → Kept b
      → apply_all options b ≡ ok b'
      → Kept b'
  unfolding apply_all
  apply_all-Kept [] b b' h e = keep b b' h e
  apply_all-Kept (o ∷ options) b b' h e =
      let (c, first, rest) = ok_bind (apply o b) (apply_all options) b' e in
      apply_all-Kept options c b' (apply-Kept o b c h first) rest
