-- ===== src/Config.antt =====
-- cmd/catalog-admin-config/main.go: the start-up checks and the cache TTL; and the DSN functions of
-- internal/adapter/outbound/postgres/db.go. The environment is a function; an unset variable is "".
pub mod Dsn
pub mod Required
pub mod Timeout
mod Tests
use iam_catalog_admin.Base.{
  ℕ, String, Bool, true, false, not, ◌&&◌, ◌||◌, Option, none, some, ℤ, pos, negsuc, List, [], ◌∷◌,
  ◌++◌, ◌+◌, ◌*◌, ◌%◌, ◌-◌, ◌^◌, ltb, ◌==◌, if◌then◌else◌,
}
use Prim.Native.String as NativeString
use text.Mathlib.Text.{starts_with}
use iam_catalog_admin.Base.Text.{is_empty}

abbrev pub Env : Type 0
Env = String → String

unfoldable pub env_or : Env → String → String → String
env_or env key default = if is_empty (env key) then default else env key

unfoldable pub is_prod : String → Bool
is_prod app_env = app_env == "production" || app_env == "staging"

abbrev pub when : Bool → String → List String
when b m = if b then m ∷ [] else []

-- validateRequiredEnv: the list `missing`; the program panics unless it is empty.
unfoldable pub required_env_errors : Env → String → List String
unfolding is_prod
required_env_errors env app_env =
    when (is_empty (env "VALKEY_URL")) "VALKEY_URL: Valkey address is required for caching"
    ++ (when
          (is_empty (env "MIGRATION_DATABASE_URL")
            && env "PG_BOUNCER_MODE" == "true"
            && is_empty (env "DATABASE_URL"))
          "MIGRATION_DATABASE_URL: required when PG_BOUNCER_MODE=true — migrations must bypass PgBouncer"
        ++ when
            (is_prod app_env
              && not (is_empty (env "VALKEY_URL"))
              && not (starts_with (env "VALKEY_URL") "rediss://"))
            "VALKEY_URL: must use rediss:// in production/staging")

-- pgcommon.ConfigWarning
pub record ConfigWarning : Type 0 where
  pub key : String
  pub reason : String

abbrev is_insecure : ConfigWarning → Bool
is_insecure x = x.key == "PG_SSLMODE" || x.key == "DATABASE_URL"

unfoldable pub warning_errors : List ConfigWarning → List String
warning_errors [] = []
warning_errors (x ∷ xs) =
    let rest = warning_errors xs in
    if is_insecure x
    then NativeString.◌++◌ x.key
        (NativeString.◌++◌ ": " (NativeString.◌++◌ x.reason " (insecure in production/staging)"))
      ∷ rest
    else rest

-- validatePostgresConfig, likewise
unfoldable pub postgres_config_errors : String → String → List ConfigWarning → List String
unfolding is_prod warning_errors
postgres_config_errors app_env dsn warnings =
    when (is_empty dsn)
      "DATABASE_URL (or PG_USER + PG_DBNAME): PostgreSQL connection required — no DSN could be built"
    ++ (if is_prod app_env then warning_errors warnings else [])

-- time.Duration(n) * time.Second, in the 64-bit arithmetic of Go
abbrev signed : ℕ → ℤ
signed n = if ltb n 9223372036854775808 then pos n else negsuc (18446744073709551615 - n)

unfoldable pub seconds : ℤ → ℤ
seconds (pos n) = signed ((n * 1000000000) % 2 ^ 64)
seconds (negsuc n) = signed ((2 ^ 64 - (n * 1000000000 + 1000000000) % 2 ^ 64) % 2 ^ 64)

-- CATALOG_TTL_SECONDS: `atoi` is strconv.Atoi, and a malformed value falls back to 60.
unfoldable pub catalog_ttl : (String → Option ℤ) → Env → ℤ
unfolding seconds env_or
catalog_ttl atoi env = elim (atoi (env_or env "CATALOG_TTL_SECONDS" "60")) [
  | none ↦ seconds (pos 60)
  | some n ↦ seconds n
]
