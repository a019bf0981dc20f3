-- ===== src/Db/Tenancy/Tests.antt =====
-- A pool on which a request runs before another, and the theorems at inputs that meet their
-- hypotheses.
use gotchi.Base.{◌≡◌, refl, true, some, none, [], ◌∷◌, codes, same}
use gotchi.Errors.{has_code, pg_error}
use gotchi.Web.Context.{Context, text, tenant_key, value}
use gotchi.Web.Tenant.{tenant_id_string}
use gotchi.Db.Tenancy.{
  Conn, Server, Serves, is_undefined_function_error, before_acquire, after_release, admin_context,
  tolerate,
}
use gotchi.Db.Tenancy.Pool.{
  Pool, Answers, Pick.here, Reach, start, next, connected, acquired, released,
}
use gotchi.Db.Tenancy.Isolation.{IsIsolated, reachable-IsIsolated, after_release_leaks}

abbrev defined_server : Server
defined_server t c = (none, record { current_tenant = t })

defined-Answers : Answers true defined_server
defined-Answers = record {
  serves = record { sets = λ t c e. refl; keeps = λ t c e failed undefined. absurd (cc) };
  defined = λ h t c e failed. absurd (cc);
  not_defined = λ h. absurd (cc);
}

abbrev missing_server : Server
missing_server t c = (some (pg_error "42883"), c)

missing-Serves : Serves missing_server
missing-Serves = record { sets = λ t c e. absurd (cc); keeps = λ t c e failed undefined. refl }

abbrev of_acme : Context
of_acme = (tenant_key, text (codes "acme")) ∷ []

abbrev acme_conn : Conn
acme_conn = record { current_tenant = codes "acme" }

abbrev in_use : Pool
in_use = record {
  idle = [];
  leased = record { ctx = of_acme; conn = acme_conn; since_installed = true } ∷ [];
  installed = true;
}

abbrev back : Pool
back = record { idle = record { current_tenant = [] } ∷ []; leased = []; installed = true }

used : Reach back
unfolding before_acquire after_release tolerate tenant_id_string value same
used =
    next
      (next (next (start true) (connected _)) (
        acquired _ defined_server of_acme (record { current_tenant = [] }) [] defined-Answers here
          refl))
      (released in_use defined_server
        (record { ctx = of_acme; conn = acme_conn; since_installed = true }) [] defined-Answers here
        refl)

reachable-IsIsolated_example : IsIsolated back
reachable-IsIsolated_example = reachable-IsIsolated back used

after_release_leaks_example :
    (after_release missing_server acme_conn ≡ (true, acme_conn))
    × (before_acquire defined_server (admin_context none) (after_release missing_server acme_conn).1
        ≡ (true, acme_conn))
unfolding has_code is_undefined_function_error
after_release_leaks_example =
    after_release_leaks missing_server defined_server none acme_conn (pg_error "42883")
      missing-Serves refl refl
