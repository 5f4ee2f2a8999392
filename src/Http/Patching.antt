-- ===== src/Http/Patching.antt =====
-- The statuses of CAT-2: what the transaction of Update comes to, through service, repository,
-- triggers and checks.
pub mod Answers
use iam_catalog_admin.Base.{
  ℕ, String, Bool, true, false, not, ◌&&◌, ◌||◌, Option, none, some, ℤ, ◌≡◌, ◌≢◌, refl, ◌∙◌, ap,
  inl, inr, arith, Bool-cases, eq_ℤ, is_some, if◌then◌else◌,
}
use iam_catalog_admin.Base.Text.{is_empty, is_blank, nonempty_of_blank}
use iam_catalog_admin.Json.{Map, get}
use iam_catalog_admin.Domain.{Department, Uuid}
use iam_catalog_admin.Domain.Errors.{
  Error, DomainError, PgError, domain, pg, new_error, with_details,
}
use iam_catalog_admin.Exec.{Result, ok, err, Result-cases, on, pure, fail, ◌>>=◌}
use iam_catalog_admin.World.{World, inc, writes_total}
use iam_catalog_admin.Postgres.Pgx.{input_error, Pgx, IsPgx}
use iam_catalog_admin.Postgres.Statement.{set_column, Update}
use iam_catalog_admin.Postgres.Db.{wrap_result, wrap_conn_err}
use iam_catalog_admin.Postgres.Undisturbed.{IsUndisturbed, with_pool-result}
use iam_catalog_admin.Postgres.Schema.{violation, department_at, next_version, updated_department}
use iam_catalog_admin.Postgres.Schema.Invariant.{IsCatalog}
use iam_catalog_admin.Postgres.Schema.Rows.{IsRow}
use iam_catalog_admin.Postgres.Department as Repository
use iam_catalog_admin.Postgres.Department.{
  dept_update_from_tx, update_from_tx, count_conflict, update_some, department_update,
  department_repository,
}
use iam_catalog_admin.Postgres.Department.Locking.{
  expected_update, conflict, not_found, dept_update_from_tx-read,
}
use iam_catalog_admin.Postgres.Department.Deciding.{
  or_old, renames, retires, renamed-refused, retired-refused, accepted, department_at-IsRow,
}
use iam_catalog_admin.Service.Codec.{Codec}
use iam_catalog_admin.Service.Department as Service
use iam_catalog_admin.Service.Department.{
  DepartmentService, invalidate_cache, translate, is_blank_name, patch_some,
}
use iam_catalog_admin.Http.Context.{Ctx, RequestContext, is_operator}
use iam_catalog_admin.Http.Middleware.{require_operator, parse_uuid_param}
use iam_catalog_admin.Http.Respond.{handle_error, domain_error_status}
use iam_catalog_admin.Http.Bind.{Gin, DepartmentPatchRequest, bind_patch, raw_members}
use iam_catalog_admin.Http.Departments
use iam_catalog_admin.Http.Outcomes.{is_outage}
use iam_catalog_admin.Http.Statuses.{gate_status, map_error, status_after, invalidated}

-- What errors.As finds in a domain error, and the SQLSTATE class of the two rules for system
-- departments.
pub record IsClassified (p : Pgx) : Type 0 where
  pub of_domain : (e : DomainError) → p.is_check_violation (domain e) ≡ false
  pub of_active : is_outage p (violation "23514" "chk_system_department_active") ≡ false
  pub of_name : is_outage p (violation "23514" "chk_system_department_name_immutable") ≡ false

-- 404 without the row, 409 at another version, 422 for a new name or the retirement of a system
-- department, else 200.
abbrev pub row_status : DepartmentPatchRequest → Option Department → ℕ
row_status req none = 404
row_status req (some old) =
    if eq_ℤ old.record_version req.record_version
    then if old.is_system && renames req.name old
      then 422
      else if old.is_system && retires req.is_active
      then 422
      else 200
    else 409

-- The server can hold the new name.
abbrev pub IsReadable : Pgx → Option String → Type 0
IsReadable p none = Unit
IsReadable p (some n) = p.text_error n ≡ none

module _ {p : Pgx} (laws : IsPgx p) (u : IsUndisturbed p) (classes : IsClassified p) where
  counted :
      (x : Result Department × World)
      → (on (λ d. inc (writes_total "departments" "update") >>= λ _. pure d) (count_conflict p) x).0
        ≡ x.0
  unfolding inc
  counted (ok d, w) = refl
  counted (err e, w) = ground arith

  read_update :
      (id : Uuid) (name : Option String) (is_active : Option Bool) (version : ℤ)
      → IsReadable p name
      → input_error p (department_update id name is_active version).args ≡ none
  unfolding department_update set_column
  read_update id none none version r = refl
  read_update id none (some b) version r = refl
  read_update id (some n) none version r = rw r refl
  read_update id (some n) (some b) version r = rw r refl

  pub update_some-result :
      (id : Uuid) (name : Option String) (is_active : Option Bool) (version : ℤ) (w : World)
      → IsReadable p name
      → (update_some p id name is_active version w).0
        ≡ wrap_result p
            (expected_update id version
              (department_update id name is_active version)
              w
              (department_at id w.departments)).0
  unfolding update_from_tx
  update_some-result id name is_active version w r =
      let up = department_update id name is_active version in
      with_pool-result u (update_from_tx p id version up) w
      ∙ ap (wrap_result p) (
          counted (dept_update_from_tx p id version up w)
          ∙ ap (λ (x : Result Department × World). x.0)
              (dept_update_from_tx-read p id version up w (u.sent w 0) (u.sent w 1)
                (read_update id name is_active version r)))

  -- The status of an error of the transaction.
  abbrev pub transaction_status : Ctx → Result Department → ℕ
  transaction_status c r = status_after p 200 c (map_error (translate p) (wrap_result p r))

  of_domain-status :
      (c : Ctx) (e : DomainError) → transaction_status c (err (domain e)) ≡ domain_error_status e
  unfolding wrap_conn_err translate handle_error
  of_domain-status c e = rw (classes.of_domain e) refl

  passed : (e : PgError) → is_outage p (pg e) ≡ false → wrap_conn_err p (pg e) ≡ pg e
  unfolding wrap_conn_err
  passed e calm = rw (calm, laws.pg_error e) refl

  -- The violation that a rule for system departments raises.
  abbrev rule : String → PgError
  rule name = record { sqlstate = "23514"; constraint = name; message = "violation" }

  of_name-status :
      (c : Ctx)
      → transaction_status c (err (pg (rule "chk_system_department_name_immutable"))) ≡ 422
  unfolding translate handle_error domain_error_status new_error with_details
  of_name-status c =
      let e = rule "chk_system_department_name_immutable" in
      rw (passed e classes.of_name, laws.check_violation e, laws.constraint e) refl

  of_active-status :
      (c : Ctx) → transaction_status c (err (pg (rule "chk_system_department_active"))) ≡ 422
  unfolding translate handle_error domain_error_status new_error with_details
  of_active-status c =
      let e = rule "chk_system_department_active" in
      rw (passed e classes.of_active, laws.check_violation e, laws.constraint e) refl

  has_name :
      (name : Option String) (old : Department)
      → IsRow old
      → is_blank_name p name ≡ false
      → is_empty (or_old name old.name) ≡ false
  has_name none old is_row named = is_row.has_name
  has_name (some n) old is_row named = nonempty_of_blank n named

  -- A row that the patch may meet, and a name that is not empty.
  updated-status :
      (c : Ctx) (id : Uuid) (req : DepartmentPatchRequest) (w : World) (old : Department)
      → IsRow old
      → next_version old.record_version ≢ none
      → is_blank_name p req.name ≡ false
      → transaction_status c (
          updated_department w.now
            (department_update id req.name req.is_active req.record_version)
            old)
        ≡ (if old.is_system && renames req.name old
            then 422
            else if old.is_system && retires req.is_active
            then 422
            else 200)
  updated-status c id req w old is_row room named =
      let by_rule = old.is_system && renames req.name old in
      elim (Bool-cases by_rule) [
        | inl renamed ↦
            rw
              (
                renamed-refused w.now id req.name req.is_active req.record_version old renamed,
                renamed,
              )
              (of_name-status c)
        | inr kept ↦ elim (Bool-cases (old.is_system && retires req.is_active)) [
          | inl retired ↦
              rw
                (
                  retired-refused w.now id req.name req.is_active req.record_version old kept
                      retired room,
                  kept,
                  retired,
                )
                (of_active-status c)
          | inr active ↦
              let (row, done) =
                accepted w.now id req.name req.is_active req.record_version old kept active room
                  is_row (has_name req.name old is_row named) in
              rw (done, kept, active) refl
        ]
      ]

  expected_update-at :
      (id : Uuid) (version : ℤ) (up : Update) (w : World) (old : Department)
      → eq_ℤ old.record_version version ≡ true
      → (expected_update id version up w (some old)).0 ≡ updated_department w.now up old
  unfolding expected_update
  expected_update-at id version up w old same =
      elim (Result-cases (updated_department w.now up old)) [
        | inl (row, e) ↦ rw (same, e) refl
        | inr (x, e) ↦ rw (same, e) refl
      ]

  pub expected-status :
      (c : Ctx) (id : Uuid) (req : DepartmentPatchRequest) (w : World) (o : Option Department)
      → ((old : Department) → o ≡ some old → IsRow old × (next_version old.record_version ≢ none))
      → is_blank_name p req.name ≡ false
      → transaction_status c
          (expected_update id req.record_version
            (department_update id req.name req.is_active req.record_version)
            w
            o).0
        ≡ row_status req o
  unfolding expected_update new_error with_details domain_error_status
  expected-status c id req w none met named = of_domain-status c _
  expected-status c id req w (some old) met named =
      elim (Bool-cases (eq_ℤ old.record_version req.record_version)) [
        | inr other ↦ rw other (of_domain-status c _)
        | inl same ↦
            rw
              (
                expected_update-at id req.record_version
                    (department_update id req.name req.is_active req.record_version) w old same,
                same,
              )
              (updated-status c id req w old (met old refl).0 (met old refl).1 named)
      ]
