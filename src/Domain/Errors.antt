-- ===== src/Domain/Errors.antt =====
-- internal/core/domain/errors.go, and the other errors that flow through the program.
use iam_catalog_admin.Base.{ℕ, String, Bool, true, false, [], eqb}
use iam_catalog_admin.Json.{Map}

pub data Sentinel : Type 0 where
  err_validation err_missing_identity err_insufficient_role : Sentinel
  err_optimistic_lock_conflict err_dependency_unavailable err_no_mutable_field : Sentinel
  err_invalid_feature_value err_department_not_found err_plan_not_found err_conflict : Sentinel
  err_field_immutable err_system_name_immutable err_system_department_cannot_be_retired : Sentinel
  err_method_not_allowed err_db_unavailable err_cache_unavailable : Sentinel

-- The text that each sentinel is made with: the wire code.
unfoldable pub text : Sentinel → String
text err_validation = "validation_error"
text err_missing_identity = "missing_identity_headers"
text err_insufficient_role = "insufficient_role"
text err_optimistic_lock_conflict = "optimistic_lock_conflict"
text err_dependency_unavailable = "dependency_unavailable"
text err_no_mutable_field = "no_mutable_field"
text err_invalid_feature_value = "invalid_feature_value"
text err_department_not_found = "department_not_found"
text err_plan_not_found = "plan_not_found"
text err_conflict = "conflict"
text err_field_immutable = "field_immutable"
text err_system_name_immutable = "system_name_immutable"
text err_system_department_cannot_be_retired = "system_department_cannot_be_retired"
text err_method_not_allowed = "method_not_allowed"
text err_db_unavailable = "db_unavailable"
text err_cache_unavailable = "cache_unavailable"

-- Sentinels are compared by identity.
abbrev pub number : Sentinel → ℕ
number err_validation = 0
number err_missing_identity = 1
number err_insufficient_role = 2
number err_optimistic_lock_conflict = 3
number err_dependency_unavailable = 4
number err_no_mutable_field = 5
number err_invalid_feature_value = 6
number err_department_not_found = 7
number err_plan_not_found = 8
number err_conflict = 9
number err_field_immutable = 10
number err_system_name_immutable = 11
number err_system_department_cannot_be_retired = 12
number err_method_not_allowed = 13
number err_db_unavailable = 14
number err_cache_unavailable = 15

abbrev pub same : Sentinel → Sentinel → Bool
same a b = eqb (number a) (number b)

pub record DomainError : Type 0 where
  pub code : String
  pub message : String
  pub cause : Sentinel
  pub details : Map

-- What the server reports: *pgconn.PgError, as far as the program looks into it.
pub record PgError : Type 0 where
  pub sqlstate : String
  pub constraint : String
  pub message : String

-- Go's `error`, by the dynamic types that the program tells apart.
pub data Error : Type 0 where
  domain : DomainError → Error
  pg : PgError → Error
  no_rows : Error
  redis_nil : Error
  canceled : Error
  deadline_exceeded : Error
  max_bytes : Error
  other : String → Error

unfoldable pub new_error : Sentinel → String → Error
unfolding text
new_error sentinel message =
    domain (record { code = text sentinel; message = message; cause = sentinel; details = [] })

unfoldable pub with_details : Map → Error → Error
with_details d (domain e) = domain (record e { details = d })
with_details d e = e

-- errors.Is(err, sentinel): a DomainError unwraps to its cause.
unfoldable pub is : Error → Sentinel → Bool
is (domain e) s = same e.cause s
is e s = false

-- errors.As(err, &de)
abbrev pub is_domain : Error → Bool
is_domain (domain e) = true
is_domain e = false
