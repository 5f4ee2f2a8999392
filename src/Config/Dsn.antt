-- ===== src/Config/Dsn.antt =====
-- DSNFromEnv, ApplyStatementTimeout and MigrationDSNFromEnv of db.go.
use iam_catalog_admin.Base.{ℕ, String, Option, none, some, ltb, ◌/◌, if◌then◌else◌}
use Prim.Native.String.{◌++◌}
use iam_catalog_admin.Base.Text.{is_empty, contains}

-- The standard library's text functions: time.ParseDuration, on values that are not negative and in
-- nanoseconds, and the decimal text of a number.
pub record Library : Type 0 where
  pub parse_duration : String → Option ℕ
  pub decimal : ℕ → String

module _ (l : Library) where
  abbrev pub option_text : String → ℕ → String
  option_text dsn d =
      (if contains dsn "?" then "&" else "?")
      ++ ("options=-c%20statement_timeout%3D" ++ l.decimal (d / 1000000))

  abbrev pub with_timeout : String → Option ℕ → String
  with_timeout dsn none = dsn
  with_timeout dsn (some d) =
      if ltb 0 d
      then if contains dsn "statement_timeout" then dsn else dsn ++ option_text dsn d
      else dsn

  -- ApplyStatementTimeout; `timeout` is PG_STATEMENT_TIMEOUT
  unfoldable pub apply_statement_timeout : String → String → String
  unfolding contains
  apply_statement_timeout timeout dsn =
      if is_empty dsn
      then dsn
      else if is_empty timeout
      then dsn
      else with_timeout dsn (l.parse_duration timeout)

  -- DSNFromEnv; `config` is the DSN of pgcommon.ConfigFromEnv
  unfoldable pub dsn_from_env : (String → String) → String → String
  unfolding apply_statement_timeout
  dsn_from_env env config =
      if is_empty (env "DATABASE_URL")
      then apply_statement_timeout (env "PG_STATEMENT_TIMEOUT") config
      else config

  unfoldable pub migration_dsn_from_env : (String → String) → String → String
  unfolding apply_statement_timeout dsn_from_env
  migration_dsn_from_env env config =
      if is_empty (env "MIGRATION_DATABASE_URL")
      then dsn_from_env env config
      else apply_statement_timeout (env "PG_STATEMENT_TIMEOUT") (env "MIGRATION_DATABASE_URL")
