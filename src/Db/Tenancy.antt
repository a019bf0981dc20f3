-- ===== src/Db/Tenancy.antt =====
-- The hooks of setupMultitenancy (db/db.go) on the connections of a pool, with AdminContext.
pub mod Pool
pub mod Isolation
pub mod Tests
use gotchi.Base.{◌≡◌, Bool, true, false, Option, none, some, Text, [], same, if◌then◌else◌}
use gotchi.Errors.{Error, has_code}
use gotchi.Web.Context.{Context}
use gotchi.Web.Tenant.{system_tenant, with_system_tenant, tenant_id_string}

-- A connection, by its session setting app.current_tenant; a new one has none.
pub record Conn : Type 0 where
  pub current_tenant : Text

abbrev pub new_conn : Conn
new_conn = record { current_tenant = [] }

-- what the server does with `select set_tenant($1)`: the error, and the connection behind it
abbrev pub Server : Type 0
Server = Text → Conn → Option Error × Conn

-- errors.As(err, &pgErr) && pgErr.Code == "42883"
unfoldable pub is_undefined_function_error : Error → Bool
is_undefined_function_error e = has_code "42883" e

abbrev pub tolerate : Option Error → Bool
unfolding is_undefined_function_error
tolerate none = true
tolerate (some e) = is_undefined_function_error e

-- The function set_tenant of migrations/core sets the setting of the session. Where it is not
-- defined, nothing runs.
pub record Serves (server : Server) : Type 0 where
  pub sets :
      (t : Text) (c : Conn)
      → (server t c).0 ≡ none
      → (server t c).1 ≡ record c { current_tenant = t }
  pub keeps :
      (t : Text) (c : Conn) (e : Error)
      → (server t c).0 ≡ some e
      → is_undefined_function_error e ≡ true
      → (server t c).1 ≡ c

abbrev set_for : Server → Option Text → Conn → Bool × Conn
set_for server none c = (true, c)
set_for server (some t) c =
    if same t system_tenant then (true, c) else (tolerate (server t c).0, (server t c).1)

-- whether the connection may be used, and the connection
unfoldable pub before_acquire : Server → Context → Conn → Bool × Conn
unfolding tenant_id_string
before_acquire server ctx c = set_for server (tenant_id_string ctx) c

-- whether it goes back to the pool, and the connection
unfoldable pub after_release : Server → Conn → Bool × Conn
after_release server c = (tolerate (server [] c).0, (server [] c).1)

-- a nil context has no values, as context.Background() has none
unfoldable pub admin_context : Option Context → Context
unfolding with_system_tenant
admin_context none = with_system_tenant []
admin_context (some ctx) = with_system_tenant ctx
