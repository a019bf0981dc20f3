-- ===== src/Lib.antt =====
-- gotchi: login and tenants
--
-- The library authenticates users of a Go web application, with passwords (auth/password) or through
-- an OpenID Connect provider (auth), keeps users, tenants and memberships in PostgreSQL
-- (internal/db, auth/postgres_store.go), keeps the claims of a login in a session (session), and
-- guards routes by these claims (auth/middleware.go, tenantctx). Registration, login, password
-- changes and mails run over the tables; the OIDC callback resolves a user in the same tables and
-- writes the session; the middleware reads the session and fills the request's context.
--
-- Files
--   Base            numbers, texts and lists: native naturals, integers over them, Go strings as bytes
--   Strings         package strings of Go, as far as it is called
--   Errors          auth/password/errors.go and the wrapping of errors
--   Database        internal/db/models.go; Database/Users and Database/Passwords are the queries of
--                   internal/db/auth.sql.go and internal/db/password.sql.go, each a function on the
--                   tables; Database/WellFormed is what the keys and references of
--                   migrations/auth and migrations/password promise of the rows, and that each
--                   statement keeps it
--   Database/Connection   statements on a pool or in a transaction, as a monad with early return;
--                   its children say what a part of a function keeps, undoes or returns
--   Identity        auth/types.go and auth/postgres_store.go; Members is about whom it lets in, Stranded
--                   about a login outside a transaction
--   Password        auth/password: Config and Policy (config.go, policy.go, lockout.go), Store and its
--                   children (store.go, token.go), Handler and its children (handler.go); Reach is the tables
--                   that calls of both stores can lead to, and Store/Tokens/Evolves what may happen to
--                   the tokens between two calls
--   Web             requests, responses, sessions and contexts: tenantctx/tenantctx.go,
--                   auth/context.go, and the statements of a handler
--   Auth            Config (config.go), Oidc (oidc.go), Handler with Login, Tenants and Subject
--                   (handler.go), Middleware (middleware.go); Journey joins handlers and middleware
--
--   Password/Hasher auth/password/hasher.go, over the decimals and the base64 of Strings
--   Db              db/db.go: Tenancy (setupMultitenancy, with the pool that runs its hooks as a step
--                   relation), Migrations (mergeMigrationSources and flatFS), Tracing, and Manager,
--                   which joins them
--
--   Session         session/session.go: the configuration and the constructors of the manager
--   App             app/option.go (Builder and Options) and, of app/app.go, New (Options),
--                   setupMiddleware (Middleware), Run and Close (Run), with OTELConfig of
--                   observability/otel.go
--   Observability   observability/middleware.go: Recorder (statusRecorder, around a ResponseWriter of
--                   net/http with its header, which is sent with the first final status) and Audit (request identifiers and CorrelationAndAudit)
--   OpenApi         openapi/openapi.go: Body (readRequestBody and Config), Validator (the middleware
--                   and MountChi) and Outcomes (what it answers)
--   Cmd             the command line: Disk (what it uses of package os), Export (the export of
--                   migrations of cmd/gotchi/main.go), Arguments (its other commands and main),
--                   Scaffold (internal/scaffold/scaffold.go, with its templates) and Regression
--                   (cmd/migration-regression/main.go)
--
-- How the code is read
--   A function that can return early with an error is a value of `M A`: it takes the connection to a
--   result and the connection after it. `attempt` is a call whose error the code looks at or drops,
--   `or_wrap` one that it wraps and returns. A handler is a value of `H S Response` over session,
--   connection and cookies, and `or_answer` is `http.Error` with a return. Loops over lists are
--   structural recursion, so no bound or fuel is needed.
--   A connection keeps the mails that were handed to the EmailSender, latest first, whatever it
--   returned. A connection has a list of faults: which of the next statements fail for a reason of their own.
--   Theorems without a hypothesis on it hold for every pattern of failures. An error inside a
--   transaction aborts it, as PostgreSQL does; a commit that fails has rolled back. Transactions run
--   one after the other; interleavings are modelled for the connections of the pool, not for
--   statements on the tables.
--   A disk has a list of outcomes in the same way: a call that writes works, is refused, or stops on
--   the way. A map of Go that is ranged over is the list of its pairs in the order of the range.
--   NOW() and time.Now() are one clock, read once for each operation. A UUID is a number, a text the
--   list of its bytes, an int or a duration an unbounded integer; a length or a count of attempts
--   does not come near 2^63. Every Argon2id computation is counted, since the code makes dummy ones to
--   hide which accounts exist.
--
-- Parameters: Argon2id (the record Argon2, and for the store the record Hasher), SHA-256, base64 URL
-- encoding, netip.ParseAddr, the tables of package unicode, random draws and UUIDs, the mail system,
-- the session library scs (the record Sessions, with what it documents of Put, Get and Destroy), the
-- OAuth2 client and the provider, JSON, url.Parse, and of db/db.go pgx with its pool, goose, the
-- tracers and file systems (the records Driver and Fs; goose gets the merged files as flatFS lists
-- them, and in which order it applies them is its own); of the command line package flag, SHA-256,
-- filepath.Join and the embedded migrations (the records Tools and Paths), and of openapi the library
-- libopenapi (the record Library). The server of cmd/migration-regression is one too (Server). The pool runs the hooks as pgxpool documents
-- it, and set_tenant is that of migrations/core. The only fuel is that of a caller who reads a
-- directory page by page; one call more than there are entries is enough.
--
-- Not modelled: logging, the audit line excepted; the expiry, SameSite and path of cookies; the routes
-- of app and the dependencies of its modules; security headers; the infos of files in db/db.go, which
-- are constant; what the command line prints; the encoders of openapi; the set-up of OpenTelemetry,
-- which only calls its library; test support and examples.
pub mod Base
pub mod Errors
pub mod Database
pub mod Db
pub mod Strings
pub mod Identity
pub mod Password
pub mod Web
pub mod Auth
pub mod Cmd
pub mod OpenApi
pub mod Observability
pub mod Session
pub mod App
