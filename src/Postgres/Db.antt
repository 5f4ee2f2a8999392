-- ===== src/Postgres/Db.antt =====
-- db.go: transactions and the classification of database errors.
use iam_catalog_admin.Base.{Bool, true, false, ◌||◌, if◌then◌else◌}
use iam_catalog_admin.Base.Text.{contains}
use iam_catalog_admin.Domain.Errors.{
  Error, domain, no_rows, canceled, deadline_exceeded, new_error, err_db_unavailable,
  err_dependency_unavailable,
}
use iam_catalog_admin.Exec.{Result, ok, err, Exec}
use iam_catalog_admin.World.{World}
use iam_catalog_admin.Postgres.Pgx.{Pgx}

module _ (p : Pgx) where
  -- isOperatorOrSystemErrorSQLState
  unfoldable pub is_operator_or_system_error : Error → Bool
  unfolding contains
  is_operator_or_system_error e =
      if p.is_pg_error e
      then contains (p.error_text e) "SQLSTATE 57" || contains (p.error_text e) "SQLSTATE 58"
      else false

  -- errors.Is on the errors that pass through unchanged
  abbrev pub passes : Error → Bool
  passes no_rows = true
  passes canceled = true
  passes deadline_exceeded = true
  passes e = false

  -- wrapConnErr on a non-nil error
  unfoldable pub wrap_conn_err : Error → Error
  unfolding is_operator_or_system_error new_error
  wrap_conn_err (domain e) = domain e
  wrap_conn_err e =
      if p.is_connection_exception e
        || p.is_insufficient_resources e
        || is_operator_or_system_error e
      then new_error err_db_unavailable "database unavailable"
      else if p.is_pg_error e
      then e
      else if passes e
      then e
      else new_error err_dependency_unavailable "database unavailable"

  abbrev pub wrap_result : {A : Type 0} → Result A → Result A
  wrap_result (ok a) = ok a
  wrap_result (err e) = err (wrap_conn_err e)

  -- withPool
  unfoldable pub with_pool : {A : Type 0} → Exec World A → Exec World A
  unfolding wrap_conn_err
  with_pool {A} fn w = let (r, w') = p.run_in_tx A fn w in (wrap_result r, w')
