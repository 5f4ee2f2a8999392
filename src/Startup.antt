-- ===== src/Startup.antt =====
-- main of cmd/catalog-admin-config/main.go: the order of the start, the wiring, the order of the
-- shutdown, and what the deferred calls do. Log lines are not modelled, nor is a panic in one of the
-- two server goroutines, which ends the process.
pub mod Order
pub mod Ttl
mod Tests
use iam_catalog_admin.Base.{
  ℕ, String, Bool, true, false, not, Option, none, some, ℤ, List, [], ◌∷◌, ◌++◌, ◌==◌,
  if◌then◌else◌,
}
use Prim.Native.String as NativeString
use iam_catalog_admin.Config.{
  Env, env_or, required_env_errors, postgres_config_errors, ConfigWarning, catalog_ttl,
}
use iam_catalog_admin.Config.Dsn.{Library, dsn_from_env, migration_dsn_from_env}
use iam_catalog_admin.Metrics.{Labels, Prometheus, Package, register}
use iam_catalog_admin.Postgres.Pgx.{Pgx}
use iam_catalog_admin.Postgres.Department.{department_repository}
use iam_catalog_admin.Postgres.Plan.{plan_repository}
use iam_catalog_admin.Service.Department as Departments
use iam_catalog_admin.Service.Plan as Plans
use iam_catalog_admin.Valkey.{Client, valkey_cache}
use iam_catalog_admin.Http.Router.{Services, DocsConfig}

pub data Event : Type 0 where
  loggers_set tracing_installed metrics_registered : Event
  pool_opened : String → Event
  background_begun migration_begun : Event
  migrated : String → Event
  cache_opened : String → Event
  -- The goroutine of a server, with the error of its ListenAndServe
  api_serving metrics_serving : String → Option String → Event
  signalled : Event
  api_budget_begun api_stopped metrics_budget_begun metrics_stopped : Event
  background_cancelled tracing_stopped flushed : Event
  metrics_budget_cancelled api_budget_cancelled cache_closed migration_cancelled pool_closed : Event

pub data Ending : Type 0 where
  returned : Ending
  panicked : String → Ending

pub record Process : Type 0 where
  pub release_mode : Bool
  pub trace : List Event
  pub ending : Ending

-- What main calls of other modules; `some` is the text of an error.
pub record Host : Type 1 where
  pub env : Env
  pub library : Library
  -- logger.NewLogger
  pub new_logger : String → Option String
  -- pgcommon.ConfigFromEnv: its DSN and its warnings
  pub config_dsn : String
  pub config_warnings : List ConfigWarning
  -- pgcommon.NewPool, and migrate.Runner.Up under its deadline
  pub new_pool : String → Option String
  pub run_migrations : String → Option String
  pub prometheus : Prometheus
  pub metrics_labels : Labels
  pub metrics : Package prometheus
  -- The error of ListenAndServe at an address, if it is not http.ErrServerClosed.
  pub listen : String → Option String
  -- The text of MustRegister's panic.
  pub metrics_panic : String

unfoldable pub abort_lines : List String → String
abort_lines [] = ""
abort_lines (m ∷ missing) =
    NativeString.◌++◌ "  • " (NativeString.◌++◌ m (NativeString.◌++◌ "\n" (abort_lines missing)))

-- The message of both validations.
unfoldable pub abort_message : List String → String
unfolding abort_lines
abort_message missing =
    NativeString.◌++◌ "startup aborted — required env vars missing or misconfigured:\n"
      (abort_lines missing)

module _ (h : Host) where
  abbrev pub app_env : String
  app_env = env_or h.env "APP_ENV" "dev"

  abbrev pub dsn : String
  dsn = dsn_from_env h.library h.env h.config_dsn

  abbrev pub migration_dsn : String
  migration_dsn = migration_dsn_from_env h.library h.env h.config_dsn

  abbrev process : List Event → Ending → Process
  process trace ending = record {
    release_mode = not (app_env == "dev");
    trace = trace;
    ending = ending;
  }

  -- A panic runs the calls that are deferred so far, the last first.
  abbrev panic : List Event → List Event → String → Process
  panic trace deferred message = process (trace ++ deferred) (panicked message)

  abbrev port : String → String → String
  port key default = NativeString.◌++◌ ":" (env_or h.env key default)

  -- What is done up to the pool, and up to the migrations.
  abbrev pub before_pool : List Event
  before_pool = loggers_set ∷ tracing_installed ∷ metrics_registered ∷ []

  abbrev pub before_migrations : List Event
  before_migrations = before_pool ++ pool_opened dsn ∷ background_begun ∷ migration_begun ∷ []

  -- From the migrations on, nothing panics: the servers are started, the run waits for a signal, and
  -- stops them then. An error of ListenAndServe ends its goroutine with a log line, and the run waits
  -- all the same. Errors of the shutdown are logged only. A run without a signal is not at its end.
  abbrev pub service_run : List Event
  service_run =
      migrated migration_dsn
      ∷ cache_opened (env_or h.env "VALKEY_URL" "localhost:6379")
      ∷ api_serving (port "APP_PORT" "8081") (h.listen (port "APP_PORT" "8081"))
      ∷ metrics_serving (port "METRICS_PORT" "9090") (h.listen (port "METRICS_PORT" "9090"))
      ∷ signalled
      ∷ api_budget_begun
      ∷ api_stopped
      ∷ metrics_budget_begun
      ∷ metrics_stopped
      ∷ background_cancelled
      ∷ tracing_stopped
      ∷ flushed
      ∷ []

  abbrev pub deferred_at_end : List Event
  deferred_at_end =
      metrics_budget_cancelled ∷ api_budget_cancelled ∷ cache_closed ∷ migration_cancelled
      ∷ background_cancelled ∷ pool_closed ∷ []

  abbrev pub with_migrations : Option String → Process
  with_migrations (some e) =
      panic before_migrations (migration_cancelled ∷ background_cancelled ∷ pool_closed ∷ [])
        (NativeString.◌++◌ "domain migrations: " e)
  with_migrations none = process (before_migrations ++ service_run ++ deferred_at_end) returned

  abbrev pub with_pool : Option String → Process
  with_pool (some e) = panic before_pool [] (NativeString.◌++◌ "connect to postgres: " e)
  with_pool none = with_migrations (h.run_migrations migration_dsn)

  abbrev pub with_postgres_config : List String → Process
  with_postgres_config [] = with_pool (h.new_pool dsn)
  with_postgres_config (m ∷ missing) = panic before_pool [] (abort_message (m ∷ missing))

  abbrev pub with_metrics : Option (Package h.prometheus) → Process
  with_metrics none = panic (loggers_set ∷ tracing_installed ∷ []) [] h.metrics_panic
  with_metrics (some m) =
      with_postgres_config (postgres_config_errors app_env dsn h.config_warnings)

  abbrev pub with_logger : Option String → Process
  with_logger (some e) = panic [] [] (NativeString.◌++◌ "init logger: " e)
  with_logger none = with_metrics (register h.prometheus h.metrics_labels h.metrics)

  abbrev pub with_required_env : List String → Process
  with_required_env [] = with_logger (h.new_logger app_env)
  with_required_env (m ∷ missing) = panic [] [] (abort_message (m ∷ missing))

  unfoldable pub main : Process
  unfolding abort_message env_or required_env_errors postgres_config_errors register
  main = with_required_env (required_env_errors h.env app_env)

  -- The documentation's settings.
  unfoldable pub docs_config : DocsConfig
  docs_config = record {
    environment = app_env;
    enabled = h.env "DOCS_ENABLED" == "true";
    auth_token = h.env "DOCS_AUTH_TOKEN";
  }

-- The services that main hands to the router: both over the pool and one cache.
unfoldable pub wired : Pgx → Client → (String → Option ℤ) → Env → Services
wired p client atoi env =
    let ttl = catalog_ttl atoi env in
    record {
      departments = Departments.with_cache_ttl ttl (
          Departments.new_department_service (department_repository p)
            (some (valkey_cache client)));
      plans =
          Plans.with_cache_ttl ttl
            (Plans.new_plan_service (plan_repository p) (some (valkey_cache client)));
    }
