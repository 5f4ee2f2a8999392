-- ===== src/Startup/Tests.antt =====
-- Runs of main at a concrete host, and the theorems on them.
use iam_catalog_admin.Base.{true, none, some, pos, [], ◌≡◌, refl, any, ◌==◌, if◌then◌else◌}
use iam_catalog_admin.Base.{arith}
use iam_catalog_admin.Config.{Env, env_or, is_prod, required_env_errors, postgres_config_errors}
use iam_catalog_admin.Config.Dsn.{Library, dsn_from_env}
use iam_catalog_admin.Metrics.Memory.{memory, started, labelled, registered, registering}
use iam_catalog_admin.Valkey.Memory
use iam_catalog_admin.Samples.{pgx}
use iam_catalog_admin.Startup.{returned, Host, app_env, dsn, migration_dsn, main, wired}
use iam_catalog_admin.Startup.Order.{
  is_serving, is_migrated, comes_first, held_after, main-migrates_first, main-releases,
  main-serves_checked, main-serves,
}
use iam_catalog_admin.Startup.Ttl.{IsLifetime, wired-IsLifetime, wired-expected_ttl}

abbrev local : Env
local key =
    if key == "VALKEY_URL"
    then "localhost:6379"
    else if key == "DATABASE_URL"
    then "postgres://localhost/catalog"
    else ""

abbrev library : Library
library = record { parse_duration = λ s. none; decimal = λ n. "0" }

abbrev host : Host
host = record {
  env = local;
  library = library;
  new_logger = λ e. none;
  config_dsn = "postgres://localhost/catalog";
  config_warnings = [];
  new_pool = λ d. none;
  run_migrations = λ d. none;
  listen = λ addr. none;
  prometheus = memory;
  metrics_labels = labelled;
  metrics = started;
  metrics_panic = "duplicate metrics collector registration attempted";
}

env_passes : required_env_errors host.env (app_env host) ≡ []
unfolding required_env_errors env_or is_prod
env_passes = refl

config_passes : postgres_config_errors (app_env host) (dsn host) host.config_warnings ≡ []
unfolding postgres_config_errors dsn_from_env env_or is_prod
config_passes = refl

main-migrates_first_example : comes_first is_migrated is_serving (main host).trace ≡ true
main-migrates_first_example = main-migrates_first host

main-releases_example : held_after (main host).trace [] ≡ some []
main-releases_example = main-releases host

serving : any is_serving (main host).trace ≡ true
serving = (main-serves host registered env_passes refl registering config_passes refl refl).0

main-serves_checked_example :
    (required_env_errors host.env (app_env host) ≡ [])
    × (postgres_config_errors (app_env host) (dsn host) host.config_warnings ≡ [])
    × (host.new_pool (dsn host) ≡ none)
    × (host.run_migrations (migration_dsn host) ≡ none)
    × ((main host).ending ≡ returned)
main-serves_checked_example = main-serves_checked host serving

wired-IsLifetime_example :
    IsLifetime (wired pgx Memory.memory (λ s. some (pos 18446744074)) local).departments.cache_ttl
    × IsLifetime (wired pgx Memory.memory (λ s. some (pos 18446744074)) local).plans.cache_ttl
wired-IsLifetime_example = wired-IsLifetime pgx Memory.memory (λ s. some (pos 18446744074)) local

wired-expected_ttl_example :
    ((wired pgx Memory.memory (λ s. some (pos 5)) local).departments.cache_ttl ≡ pos 5000000000)
    × ((wired pgx Memory.memory (λ s. some (pos 5)) local).plans.cache_ttl ≡ pos 5000000000)
wired-expected_ttl_example =
    wired-expected_ttl pgx Memory.memory (λ s. some (pos 5)) local (omega arith)
