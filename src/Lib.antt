-- ===== src/Lib.antt =====
-- Catalog / Admin Config Service: departments and subscription plans of a platform, read by every
-- tenant and written by platform operators.
--
-- The program is a hexagon. Two services (internal/core/service) hold the rules; they reach two
-- tables and a cache through ports (internal/core/port), which the Postgres repositories
-- (internal/adapter/outbound/postgres) and the Valkey adapter (internal/adapter/outbound/valkey)
-- implement; a gin router (internal/adapter/inbound/http) brings requests to the services through a
-- chain of middlewares; cmd/catalog-admin-config starts it after checks of the environment, and
-- stops it after a signal.
--
-- The state of the model is the `World` of World.antt: the rows of both tables, the entries of the
-- cache, the log of counter increments and the clock. An operation is an `Exec World`, which
-- returns a result or an error and the world after it, also on an error (Exec.antt).
--
--   Base         texts, lists, integers and tests shared by all files
--   Json         JSON documents, Go maps of them, and decoding as encoding/json does it
--   Domain       internal/core/domain: entities, patches, sentinel errors
--   Port         internal/core/port
--   Service      internal/core/service: Department and Plan, their cache entries (Codec), and in
--                Department.Threads the requests in List, Create and Patch cut at their calls of
--                the cache and the repository, which a schedule interleaves
--   Postgres     the schema of migrations/000001_init_schema.up.sql with its checks and triggers
--                (Schema, PlanSchema), UPDATE statements with placeholders (Statement), the error
--                mapping of db.go (Db), department_repository.go (Department) and
--                plan_repository.go (Plan), logger.go (Logger); Pgx names what the drivers are
--                relied on for; Kept is what both repositories do to the two tables;
--                Undisturbed is a database of which no connection and no transaction fails
--   Valkey       internal/adapter/outbound/valkey/cache.go; in Options the client that New makes
--   Http         internal/adapter/inbound/http and pkg/requestctx: Context, Respond (errors.go and
--                HandleError), Middleware, Bind (dto.go), Departments, Plans, Internal, Router, and
--                in DocsSurface the answers of /swagger; History serves lists of requests;
--                Creating, Patching and PlanPatching are about the statuses of the writes
--   Metrics      internal/adapter/outbound/metrics/metrics.go: the collectors and their registration
--   Config       the checks and settings of cmd/catalog-admin-config/main.go, and in Config.Dsn the
--                DSN functions of db.go
--   Startup      main of the same file: the order of a run as a trace of events, the wiring of the
--                services (`wired`) and the lifetime of cache entries (Ttl)
--   Samples      concrete instances for the tests
--
-- Parameters stand for what the repository does not contain: pgx and the transaction runner (`Pgx`,
-- with the documented behaviour in `IsPgx` and, of error classes, `IsClassified` and `IsSqlstate`),
-- uuid and time texts (`Codec`, `IsCodec`), gin's and gincommon's decisions (`Gin`), the Redis client
-- (`Client`, `IsClient`), time.ParseDuration (`Library`), the Prometheus client (`Prometheus`,
-- `IsPrometheus`), and the calls of main into other modules (`Host`). A connection may fail at any
-- statement; the driver and the server may reject a statement's arguments, a number that is out of
-- its column's range or a text with U+0000, before a row is looked at; a transaction may fail to
-- begin or to commit, or be committed with its acknowledgement lost; and the cache may be down at any
-- call. Statements of one transaction run without another transaction between them, so that
-- transactions appear one after the other; the calls of different requests interleave in
-- Service.Department.Threads.
--
-- Numbers are mathematical integers; the overflow of bigint versions, the range of int columns, of
-- int64 in documents and of time.Duration are written out. No definition needs fuel: every loop is
-- structural, and a schedule is a list.
--
-- Not modelled: contexts and deadlines, log lines and the installation of loggers, tracing, the
-- observations of the latency histogram, the texts of the documentation assets, HTTP headers of API
-- answers, float literals beyond their text, documents with number literals beyond the range of
-- float64, the embedding and the run of the migrations (migrate.go only calls a library), a panic in
-- a goroutine, and a run of main that gets no signal. The routes of `serve` are those under /api/v1;
-- the probe and the documentation are functions of their own. The table of plans holds decoded plans:
-- the decoding of feature_set in scanPlan is not modelled.
pub mod Base
pub mod Json
pub mod Domain
pub mod Exec
pub mod World
pub mod Port
pub mod Postgres
pub mod Service
pub mod Http
pub mod Valkey
pub mod Metrics
pub mod Config
pub mod Startup
mod Samples
