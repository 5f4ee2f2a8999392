-- ===== src/Config/Required.antt =====
-- What a start that is not refused says of the environment.
use iam_catalog_admin.Base.{String, true, ◌≡◌, ◌≢◌, ◌⊎◌}
use text.Mathlib.Text.{starts_with}
use iam_catalog_admin.Config.{Env}

-- What the service needs of its environment, in production and staging also an encrypted connection
-- to the cache.
pub record IsConfigured (env : Env) (app_env : String) : Type 0 where
  pub valkey : env "VALKEY_URL" ≢ ""
  pub tls :
      ((app_env ≢ "production") × (app_env ≢ "staging"))
      ⊎ (starts_with (env "VALKEY_URL") "rediss://" ≡ true)
  pub migrations :
      (env "PG_BOUNCER_MODE" ≢ "true")
      ⊎ ((env "MIGRATION_DATABASE_URL" ≢ "") ⊎ (env "DATABASE_URL" ≢ ""))
