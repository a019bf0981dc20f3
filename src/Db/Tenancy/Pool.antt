-- ===== src/Db/Tenancy/Pool.antt =====
-- A pool of connections with the hooks of db/db.go, as pgxpool documents them: BeforeAcquire runs on
-- an idle connection before it is handed out, AfterRelease on one that comes back, and a connection
-- that a hook refuses is destroyed.
use gotchi.Base.{◌≡◌, ◌≢◌, Bool, true, false, none, some, List, [], ◌∷◌, Text}
use gotchi.Errors.{Error}
use gotchi.Web.Context.{Context}
use gotchi.Db.Tenancy.{
  Conn, new_conn, Server, Serves, before_acquire, after_release, is_undefined_function_error,
}

-- One element of a list, and the others.
pub data Pick {ℓ} {A : Type ℓ} : List A → A → List A → Type ℓ where
  here : {x : A} {xs : List A} → Pick (x ∷ xs) x xs
  there : {x y : A} {xs rest : List A} → Pick xs y rest → Pick (x ∷ xs) y (x ∷ rest)

-- A connection that is handed out, the context of its request, and whether set_tenant was defined
-- when the request took it.
pub record Lease : Type 0 where
  pub ctx : Context
  pub conn : Conn
  pub since_installed : Bool

pub record Pool : Type 0 where
  pub idle : List Conn
  pub leased : List Lease
  -- whether the migration that defines set_tenant has run
  pub installed : Bool

abbrev pub new_pool : Bool → Pool
new_pool installed = record { idle = []; leased = []; installed = installed }

-- From the migration on, the function is found; before it, no call of it succeeds.
pub record Answers (installed : Bool) (server : Server) : Type 0 where
  pub serves : Serves server
  pub defined :
      installed ≡ true
      → (t : Text) (c : Conn) (e : Error) → (server t c).0 ≡ some e
      → is_undefined_function_error e ≡ false
  pub not_defined : installed ≡ false → (t : Text) (c : Conn) → (server t c).0 ≢ none

pub data Step : Pool → Pool → Type 0 where
  connected : (p : Pool) → Step p (record p { idle = new_conn ∷ p.idle })
  migrated : (p : Pool) → Step p (record p { installed = true })
  acquired :
      (p : Pool) (server : Server) (ctx : Context) (c : Conn) (rest : List Conn)
      → Answers p.installed server
      → Pick p.idle c rest
      → (before_acquire server ctx c).0 ≡ true
      → Step p (record p {
        idle = rest;
        leased =
            record {
              ctx = ctx;
              conn = (before_acquire server ctx c).1;
              since_installed = p.installed;
            }
            ∷ p.leased;
      })
  refused :
      (p : Pool) (server : Server) (ctx : Context) (c : Conn) (rest : List Conn)
      → Answers p.installed server
      → Pick p.idle c rest
      → (before_acquire server ctx c).0 ≡ false
      → Step p (record p { idle = rest })
  released :
      (p : Pool) (server : Server) (l : Lease) (rest : List Lease)
      → Answers p.installed server
      → Pick p.leased l rest
      → (after_release server l.conn).0 ≡ true
      → Step p (record p { idle = (after_release server l.conn).1 ∷ p.idle; leased = rest })
  -- AfterRelease refuses it, or the connection broke
  destroyed :
      (p : Pool) (l : Lease) (rest : List Lease)
      → Pick p.leased l rest
      → Step p (record p { leased = rest })

pub data Reach : Pool → Type 0 where
  start : (installed : Bool) → Reach (new_pool installed)
  next : {p q : Pool} → Reach p → Step p q → Reach q
