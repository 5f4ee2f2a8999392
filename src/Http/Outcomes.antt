-- ===== src/Http/Outcomes.antt =====
-- The two classifications of database errors, one after the other: wrapConnErr of the adapter and
-- HandleError of the inbound surface.
use package.text.Mathlib.Text.{starts_with}
use iam_catalog_admin.Base.Text.{contains}
use iam_catalog_admin.Base.{
  ◌∙◌, arith, ℕ, Bool, true, false, ◌||◌, ◌≡◌, ◌≢◌, refl, inl, inr, Bool-cases, if◌then◌else◌,
}
use iam_catalog_admin.Domain.Errors.{
  PgError, Error, domain, pg, no_rows, redis_nil, canceled, deadline_exceeded, max_bytes, other,
  is_domain, new_error, text, err_db_unavailable, err_dependency_unavailable,
}
use iam_catalog_admin.Postgres.Pgx.{Pgx}
use iam_catalog_admin.Postgres.Db as Db
use iam_catalog_admin.Postgres.Db.{wrap_conn_err, passes}
use iam_catalog_admin.Http.Context.{Request}
use iam_catalog_admin.Http.Respond as Respond
use iam_catalog_admin.Http.Respond.{
  handle_error, abort, domain_error_status, new_error_response, error_response_with_details,
}

module _ (p : Pgx) where
  -- SQLSTATE classes 08, 53, 57 and 58
  abbrev pub is_outage : Error → Bool
  is_outage e =
      p.is_connection_exception e
      || p.is_insufficient_resources e
      || Db.is_operator_or_system_error p e

  -- The status for what a transaction reports: 503 for an outage and for what neither the server nor
  -- the request's context reports, else 500.
  abbrev pub database_status : Error → ℕ
  database_status e =
      if is_outage e then 503 else if p.is_pg_error e then 500 else if passes p e then 500 else 503

  by_class :
      (r : Request) (b : Bool)
      → (if b
          then abort r 503 (text err_db_unavailable) "database unavailable"
          else abort r 500 "internal_error" "an unexpected error occurred").status
        ≡ (if b then 503 else 500)
  unfolding abort
  by_class r true = refl
  by_class r false = refl

  settled :
      (r : Request) (e : Error)
      → (handle_error p r e).status ≡ (if is_outage e then 503 else 500)
      → (handle_error p r (
          if is_outage e
          then new_error err_db_unavailable "database unavailable"
          else if p.is_pg_error e
          then e
          else if passes p e
          then e
          else new_error err_dependency_unavailable "database unavailable")).status
        ≡ database_status e
  unfolding handle_error new_error domain_error_status
  settled r e h = elim (Bool-cases (is_outage e)) [
    | inl out ↦ rw out refl
    | inr calm ↦
        let plain : (handle_error p r e).status ≡ 500 = rw calm at h in
        elim (Bool-cases (p.is_pg_error e)) [
          | inl server ↦ rw (calm, server) plain
          | inr silent ↦ elim (Bool-cases (passes p e)) [
            | inl through ↦ rw (calm, silent, through) plain
            | inr stopped ↦ rw (calm, silent, stopped) refl
          ]
        ]
  ]

  -- The status after both classifications, an error that is no domain error.
  pub handle_error-wrap_conn_err :
      (r : Request) (e : Error)
      → is_domain e ≡ false
      → e ≢ max_bytes
      → (handle_error p r (wrap_conn_err p e)).status ≡ database_status e
  unfolding handle_error wrap_conn_err Db.is_operator_or_system_error
      Respond.is_operator_or_system_error new_error domain_error_status
  handle_error-wrap_conn_err r (domain d) h k = cc
  handle_error-wrap_conn_err r max_bytes h k = absurd (k refl)
  handle_error-wrap_conn_err r (pg d) h k = settled r (pg d) (by_class r (is_outage (pg d)))
  handle_error-wrap_conn_err r no_rows h k = settled r no_rows (by_class r (is_outage no_rows))
  handle_error-wrap_conn_err r redis_nil h k =
      settled r redis_nil (by_class r (is_outage redis_nil))
  handle_error-wrap_conn_err r canceled h k = settled r canceled (by_class r (is_outage canceled))
  handle_error-wrap_conn_err r deadline_exceeded h k =
      settled r deadline_exceeded (by_class r (is_outage deadline_exceeded))
  handle_error-wrap_conn_err r (other s) h k =
      settled r (other s) (by_class r (is_outage (other s)))

abbrev pub is_server : Error → Bool
is_server (pg e) = true
is_server e = false

-- The documented meaning of the classifiers of platform-pgcommon, by the SQLSTATE.
pub record IsSqlstate (p : Pgx) : Type 0 where
  pub server : (e : Error) → p.is_pg_error e ≡ is_server e
  pub connection : (e : PgError) → p.is_connection_exception (pg e) ≡ starts_with e.sqlstate "08"
  pub resources : (e : PgError) → p.is_insufficient_resources (pg e) ≡ starts_with e.sqlstate "53"
  pub connection_only : (e : Error) → is_server e ≡ false → p.is_connection_exception e ≡ false
  pub resources_only : (e : Error) → is_server e ≡ false → p.is_insufficient_resources e ≡ false

-- The text of an error of the server mentions a SQLSTATE of class 57 or 58 exactly if that is its own.
abbrev pub MentionsState : Pgx → Error → Type 0
MentionsState p (pg e) =
    (contains (p.error_text (pg e)) "SQLSTATE 57" ≡ starts_with e.sqlstate "57")
    × (contains (p.error_text (pg e)) "SQLSTATE 58" ≡ starts_with e.sqlstate "58")
MentionsState p e = Unit

-- What the comments of both files ask for.
abbrev pub expected_status : Error → ℕ
expected_status (pg e) =
    if starts_with e.sqlstate "08"
      || starts_with e.sqlstate "53"
      || starts_with e.sqlstate "57"
      || starts_with e.sqlstate "58"
    then 503
    else 500
expected_status no_rows = 500
expected_status canceled = 500
expected_status deadline_exceeded = 500
expected_status e = 503

module _ {p : Pgx} (laws : IsSqlstate p) where
  quiet : (e : Error) → is_server e ≡ false → is_outage p e ≡ false
  unfolding Db.is_operator_or_system_error
  quiet e h =
      let silent : p.is_pg_error e ≡ false = rw (laws.server e) h in
      rw (laws.connection_only e h, laws.resources_only e h, silent) refl

  silent-status :
      (e : Error) → is_server e ≡ false → database_status p e ≡ (if passes p e then 500 else 503)
  silent-status e h =
      let silent : p.is_pg_error e ≡ false = rw (laws.server e) h in rw (quiet e h, silent) refl

  database_status-expected :
      (e : Error)
      → is_domain e ≡ false
      → MentionsState p e
      → database_status p e ≡ expected_status e
  unfolding Db.is_operator_or_system_error
  database_status-expected (pg e) h m =
      rw (laws.server (pg e), laws.connection e, laws.resources e, m.0, m.1) (ground arith)
  database_status-expected (domain d) h m = cc
  database_status-expected no_rows h m = silent-status no_rows refl
  database_status-expected canceled h m = silent-status canceled refl
  database_status-expected deadline_exceeded h m = silent-status deadline_exceeded refl
  database_status-expected redis_nil h m = silent-status redis_nil refl
  database_status-expected max_bytes h m = silent-status max_bytes refl
  database_status-expected (other s) h m = silent-status (other s) refl

  -- Take classifiers that go by the SQLSTATE, and an error of a transaction that is no domain error
  -- and not http.MaxBytesError; if it is the server's, let its text mention a SQLSTATE of class 57 or
  -- 58 exactly if that is its own. After both classifications it is answered with 503 if the server
  -- reports class 08, 53, 57 or 58, with 500 if it reports another, with 500 if it is pgx.ErrNoRows or
  -- an end of the context, and with 503 otherwise.
  pub wrap_conn_err-status :
      (r : Request) (e : Error)
      → is_domain e ≡ false
      → e ≢ max_bytes
      → MentionsState p e
      → (handle_error p r (wrap_conn_err p e)).status ≡ expected_status e
  wrap_conn_err-status r e h k m =
      handle_error-wrap_conn_err p r e h k ∙ database_status-expected e h m
