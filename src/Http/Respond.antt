-- ===== src/Http/Respond.antt =====
-- errors.go, and HandleError of middleware.go with its helpers: from an error to the JSON envelope.
use iam_catalog_admin.Base.{
  ℕ, String, Bool, false, ◌||◌, Option, none, some, pos, [], ◌∷◌, if◌then◌else◌,
}
use iam_catalog_admin.Base.Text.{contains, is_empty}
use iam_catalog_admin.Json.{Json, num, str, obj, of_members, Map, get, put}
use iam_catalog_admin.Domain.Errors.{
  Error, DomainError, domain, max_bytes, Sentinel, err_validation, err_no_mutable_field,
  err_invalid_feature_value, err_missing_identity, err_insufficient_role, err_department_not_found,
  err_plan_not_found, err_optimistic_lock_conflict, err_conflict, err_db_unavailable,
  err_cache_unavailable, err_dependency_unavailable, err_method_not_allowed, text,
}
use iam_catalog_admin.Exec.{Result, ok, err}
use iam_catalog_admin.World.{World, Bytes, json}
use iam_catalog_admin.Postgres.Pgx.{Pgx}
use iam_catalog_admin.Http.Context.{Request, Ctx}

pub record Response : Type 0 where
  pub status : ℕ
  pub body : Bytes

-- c.JSON and c.AbortWithStatusJSON with an object
abbrev pub reply : ℕ → Map → Response
reply status m = record { status = status; body = json (obj (of_members m)) }

pub record ErrorResponse : Type 0 where
  pub error : String
  pub status : ℕ
  pub trace_id : String
  pub request_id : String
  pub code : String
  pub message : String

abbrev first_of_ids : String → String → String → String
first_of_ids a b c = if is_empty a then if is_empty b then c else b else a

unfoldable pub new_error_response : Request → String → String → ErrorResponse
new_error_response r code message = record {
  error = code;
  status = 0;
  trace_id = r.trace_id;
  request_id = first_of_ids r.context_request_id r.header_request_id r.response_request_id;
  code = code;
  message = message;
}

-- `json:"…,omitempty"` on a string
abbrev pub omit_empty : String → String → Map → Map
omit_empty key s m = if is_empty s then m else (key, str s) ∷ m

-- The envelope as encoding/json writes it.
unfoldable pub error_members : ErrorResponse → Map
error_members er =
    ("error", str er.error)
    ∷ ("status", num (pos er.status))
    ∷ omit_empty "trace_id" er.trace_id (
        omit_empty "request_id" er.request_id
          (("code", str er.code) ∷ ("message", str er.message) ∷ []))

-- newErrorResponse, er.Status = status, AbortWithStatusJSON
unfoldable pub abort : Request → ℕ → String → String → Response
unfolding new_error_response error_members
abort r status code message =
    reply status (error_members (record (new_error_response r code message) { status = status }))

abbrev pub put_nonempty : String → String → Map → Map
put_nonempty key s m = if is_empty s then m else put key (str s) m

-- for k, v := range details { out[k] = v }
unfoldable pub merge : Map → Map → Map
merge [] out = out
merge ((k, v) ∷ details) out = merge details (put k v out)

abbrev pub lockstep : Map → Option Json → Map
lockstep out none = out
lockstep out (some code) = put "error" code out

unfoldable pub error_response_with_details : ErrorResponse → Map → Map
unfolding get put merge
error_response_with_details er details =
    let base =
      ("error", str er.error)
      ∷ ("code", str er.code)
      ∷ ("status", num (pos er.status))
      ∷ ("message", str er.message)
      ∷ [] in
    let ids = put_nonempty "request_id" er.request_id (put_nonempty "trace_id" er.trace_id base) in
    let out = merge details ids in lockstep out (get "code" out)

-- domainErrorStatus: Cause is compared with each sentinel.
abbrev status_of : Sentinel → ℕ
status_of err_validation = 400
status_of err_no_mutable_field = 400
status_of err_invalid_feature_value = 400
status_of err_missing_identity = 401
status_of err_insufficient_role = 403
status_of err_department_not_found = 404
status_of err_plan_not_found = 404
status_of err_optimistic_lock_conflict = 409
status_of err_conflict = 409
status_of err_db_unavailable = 503
status_of err_cache_unavailable = 503
status_of err_dependency_unavailable = 503
status_of err_method_not_allowed = 405
status_of _ = 422

unfoldable pub domain_error_status : DomainError → ℕ
domain_error_status de = status_of de.cause

module _ (p : Pgx) where
  -- isOperatorOrSystemErrorSQLState of this package
  unfoldable pub is_operator_or_system_error : Error → Bool
  unfolding contains
  is_operator_or_system_error e =
      if p.is_pg_error e
      then contains (p.error_text e) "SQLSTATE 57" || contains (p.error_text e) "SQLSTATE 58"
      else false

  unfoldable pub handle_error : Request → Error → Response
  unfolding abort new_error_response error_response_with_details domain_error_status text
      is_operator_or_system_error
  handle_error r max_bytes =
      abort r 413 "request_entity_too_large" "request body must not exceed 1 MB"
  handle_error r (domain de) =
      let status = domain_error_status de in
      reply status (
        error_response_with_details
          (record (new_error_response r de.code de.message) { status = status }) de.details)
  handle_error r e =
      if p.is_connection_exception e
        || p.is_insufficient_resources e
        || is_operator_or_system_error e
      then abort r 503 (text err_db_unavailable) "database unavailable"
      else abort r 500 "internal_error" "an unexpected error occurred"

  -- `if err != nil { HandleError(c, err); return }`, then the answer
  unfoldable pub answer :
      {A : Type 0} → Ctx → (A → World → Response × World) → Result A × World → Response × World
  answer c f (ok a, w) = f a w
  answer c f (err e, w) = (handle_error c.request e, w)
