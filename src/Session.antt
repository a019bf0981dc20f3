-- ===== src/Session.antt =====
-- session/session.go: the configuration of the session manager. The manager itself passes each call
-- on to scs, as Web/Session states it.
use gotchi.Base.{
  ℕ, ◌==◌, ℤ, pos, leb_ℤ, Bool, false, Option, none, some, Text, codes, is_empty, if◌then◌else◌, [],
}

-- durations in nanoseconds; SameSite as in net/http, 2 for Lax
pub record Config : Type 0 where
  pub expiry_interval : ℤ
  pub lifetime : ℤ
  pub cookie_name : Text
  pub cookie_secure : Bool
  pub cookie_same_site : ℕ

abbrev pub empty_config : Config
empty_config = record {
  expiry_interval = pos 0;
  lifetime = pos 0;
  cookie_name = [];
  cookie_secure = false;
  cookie_same_site = 0;
}

unfoldable pub with_defaults : Config → Config
with_defaults c = record c {
  expiry_interval = if leb_ℤ c.expiry_interval (pos 0) then pos 300000000000 else c.expiry_interval;
  lifetime = if leb_ℤ c.lifetime (pos 0) then pos 86400000000000 else c.lifetime;
  cookie_name = if is_empty c.cookie_name then codes "session" else c.cookie_name;
  cookie_same_site = if c.cookie_same_site == 0 then 2 else c.cookie_same_site;
}

-- what the constructors set of the manager of scs, and its store
pub record ScsSettings (Store : Type 0) : Type 0 where
  pub lifetime : ℤ
  pub cookie_name : Text
  pub cookie_secure : Bool
  pub cookie_same_site : ℕ
  pub store : Store

module _ {Store : Type 0} where
  unfoldable pub new : Config → Store → ScsSettings Store
  unfolding with_defaults
  new cfg store =
      let c = with_defaults cfg in
      record {
        lifetime = c.lifetime;
        cookie_name = c.cookie_name;
        cookie_secure = c.cookie_secure;
        cookie_same_site = c.cookie_same_site;
        store = store;
      }

  -- over memstore, whose store depends on the interval of its cleanup
  unfoldable pub new_memory : (ℤ → Store) → Config → ScsSettings Store
  unfolding new
  new_memory mem cfg = let c = with_defaults cfg in new c (mem c.expiry_interval)

  -- over pgxstore, whose store depends on the interval and on the table, if one is named
  unfoldable pub new_postgres : (ℤ → Option Text → Store) → Config → Text → ScsSettings Store
  unfolding new
  new_postgres pgx cfg table =
      let c = with_defaults cfg in
      new c (pgx c.expiry_interval (if is_empty table then none else some table))
