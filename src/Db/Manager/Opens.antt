-- ===== src/Db/Manager/Opens.antt =====
-- What Connect of db/db.go opens.
use gotchi.Base.{
  ap, ◌∙◌, ◌≡◌, refl, Bool, true, false, ◌||◌, Option, none, some, [], ◌∷◌, Text, if◌then◌else◌,
}
use gotchi.Errors.{Error, Result, ok, err}
use gotchi.Web.Context.{Context}
use gotchi.Db.Tenancy.{before_acquire, after_release, admin_context}
use gotchi.Db.Manager.{
  unless_connected, Config, PoolConfig, Driver, Manager, configure, setup_multitenancy, connect,
  connected, dial, ping, with_search_path,
}

module _ (d : Driver) where
  abbrev pub search_path_or : Text → Option Text → Option Text
  search_path_or [] parsed = parsed
  search_path_or (c ∷ path) parsed = some (c ∷ path)

  -- a configuration with both hooks, and with the search path of the manager, if it has one
  abbrev pub IsTenanted : Config → PoolConfig d.Ctx d.Log → PoolConfig d.Ctx d.Log → Type 0
  IsTenanted cfg parsed c =
      (c.before_acquire ≡ some before_acquire)
      × (c.after_release ≡ some after_release)
      × (c.search_path ≡ search_path_or cfg.search_path parsed.search_path)

  searched :
      (path : Text) (p : PoolConfig d.Ctx d.Log)
      → (with_search_path d path p).search_path ≡ search_path_or path p.search_path
  searched [] p = refl
  searched (c ∷ path) p = refl

  if_searched :
      (b : Bool) (p q : PoolConfig d.Ctx d.Log)
      → p.search_path ≡ q.search_path
      → (if b then p else q).search_path ≡ q.search_path
  if_searched true p q h = h
  if_searched false p q h = refl

  configure-IsTenanted :
      (cfg : Config) (parsed : PoolConfig d.Ctx d.Log)
      → IsTenanted cfg parsed (configure d cfg parsed)
  unfolding configure setup_multitenancy
  configure-IsTenanted cfg parsed = (
    refl,
    refl,
    searched cfg.search_path _
        ∙ ap (search_path_or cfg.search_path)
            (if_searched (cfg.enable_slog_tracing || cfg.otel_tracing) _ parsed refl),
  )

  -- the pool was opened with such a configuration, and the error is that of a ping as system tenant
  abbrev pub Opened : Manager d → Context → d.Pool → Option Error → Type 0
  Opened m ctx pool e =
      (parsed : PoolConfig d.Ctx d.Log) × (c : PoolConfig d.Ctx d.Log) × (d.parse_config
          m.cfg.database_url
        ≡ ok parsed)
      × IsTenanted m.cfg parsed c
      × (d.new_with_config c ≡ ok pool)
      × (e ≡ d.ping pool (admin_context (some ctx)))

  connected-Opened :
      (m : Manager d) (ctx : Context) (pool : d.Pool) (parsed : PoolConfig d.Ctx d.Log)
      (r : Result d.Pool)
      → m.pool ≡ none
      → d.parse_config m.cfg.database_url ≡ ok parsed
      → d.new_with_config (configure d m.cfg parsed) ≡ r
      → (connected d m ctx r).1.pool ≡ some pool
      → Opened m ctx pool (connected d m ctx r).0
  unfolding connected ping
  connected-Opened m ctx pool parsed (err e) empty got dialled opened = absurd (cc)
  connected-Opened m ctx pool parsed (ok p) empty got dialled opened =
      let same_pool : p ≡ pool = cc in
      (
        parsed,
        configure d m.cfg parsed,
        got,
        configure-IsTenanted m.cfg parsed,
        cc,
        ap (λ p. d.ping p (admin_context (some ctx))) same_pool,
      )

  dial-Opened :
      (m : Manager d) (ctx : Context) (pool : d.Pool) (r : Result (PoolConfig d.Ctx d.Log))
      → m.pool ≡ none
      → d.parse_config m.cfg.database_url ≡ r
      → (dial d m ctx r).1.pool ≡ some pool
      → Opened m ctx pool (dial d m ctx r).0
  unfolding dial
  dial-Opened m ctx pool (err e) empty got opened = absurd (cc)
  dial-Opened m ctx pool (ok parsed) empty got opened =
      connected-Opened m ctx pool parsed (d.new_with_config (configure d m.cfg parsed)) empty got
        refl opened

  again :
      (m : Manager d) (ctx : Context) (pool : d.Pool)
      → m.pool ≡ some pool
      → connect d m ctx ≡ (none, m)
  unfolding connect
  again m ctx pool e = rw e refl

  connected-files :
      (m : Manager d) (ctx : Context) (r : Result d.Pool)
      → (connected d m ctx r).1.migration_files ≡ m.migration_files
  unfolding connected
  connected-files m ctx (ok pool) = refl
  connected-files m ctx (err e) = refl

  dial-files :
      (m : Manager d) (ctx : Context) (r : Result (PoolConfig d.Ctx d.Log))
      → (dial d m ctx r).1.migration_files ≡ m.migration_files
  unfolding dial
  dial-files m ctx (ok parsed) =
      connected-files m ctx (d.new_with_config (configure d m.cfg parsed))
  dial-files m ctx (err e) = refl

  unless-files :
      (o : Option d.Pool) (fresh : Option Error × Manager d) (m : Manager d)
      → fresh.1.migration_files ≡ m.migration_files
      → (unless_connected d o fresh m).1.migration_files ≡ m.migration_files
  unless-files none fresh m e = e
  unless-files (some pool) fresh m e = refl

  -- Connect leaves the sources as they are
  pub connect-files :
      (m : Manager d) (ctx : Context) → (connect d m ctx).1.migration_files ≡ m.migration_files
  unfolding connect
  connect-files m ctx =
      unless-files m.pool (dial d m ctx (d.parse_config m.cfg.database_url)) m
        (dial-files m ctx (d.parse_config m.cfg.database_url))

  -- Where a manager without a pool has one after Connect, the pool was opened with both tenant hooks
  -- and the search path of the manager, and the error is that of a ping as system tenant. Whatever
  -- this error was, the manager keeps the pool, and Connect returns nil from then on.
  pub connect_opens :
      (m : Manager d) (ctx ctx' : Context) (pool : d.Pool)
      → m.pool ≡ none
      → (connect d m ctx).1.pool ≡ some pool
      → Opened m ctx pool (connect d m ctx).0
        × (connect d (connect d m ctx).1 ctx' ≡ (none, (connect d m ctx).1))
  connect_opens m ctx ctx' pool empty opened =
      let first : connect d m ctx ≡ dial d m ctx (d.parse_config m.cfg.database_url) =
        unfold connect in rw empty refl in
      (
        rw first (
            dial-Opened m ctx pool (d.parse_config m.cfg.database_url) empty refl
              (rw first at opened)),
        again (connect d m ctx).1 ctx' pool opened,
      )
