-- ===== src/Config/Tests.antt =====
-- The theorem on the environment at a concrete one.
use iam_catalog_admin.Base.{true, some, ◌==◌, if◌then◌else◌}
use iam_catalog_admin.Config.{Env}
use iam_catalog_admin.Config.Dsn.{Library, apply_statement_timeout}
use iam_catalog_admin.Config.Timeout.{IsTimed, apply_statement_timeout-IsTimed}

abbrev production : Env
production key = if key == "VALKEY_URL" then "rediss://cache:6380" else ""

-- Five seconds.
abbrev library : Library
library = record { parse_duration = λ s. some 5000000000; decimal = λ n. "5000" }

apply_statement_timeout-IsTimed_example :
    IsTimed true "postgres://db:5432/catalog"
      (apply_statement_timeout library "5s" "postgres://db:5432/catalog")
      (apply_statement_timeout library "5s"
        (apply_statement_timeout library "5s" "postgres://db:5432/catalog"))
apply_statement_timeout-IsTimed_example =
    apply_statement_timeout-IsTimed library "5s" "postgres://db:5432/catalog"
