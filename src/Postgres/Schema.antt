-- ===== src/Postgres/Schema.antt =====
-- migrations/000001_init_schema.up.sql: the constraints, the triggers, and what INSERT and UPDATE do
-- to a table under them. Checks run in the order of their names, as PostgreSQL runs them.
pub mod Rows
pub mod Invariant
pub mod Updates
pub mod Inserting
use iam_catalog_admin.Base.{
  ℕ, String, Bool, true, false, not, ◌&&◌, Option, none, some, ℤ, pos, negsuc, List, [], ◌∷◌, ◌++◌,
  map, any, find, ltb, eqb, eq_ℤ, ◌==◌, if◌then◌else◌, max_int64, ◌+◌, is_some, suc, zero,
}
use iam_catalog_admin.Base.Text.{is_empty}
use iam_catalog_admin.Domain.{Department, Time, Uuid}
use iam_catalog_admin.Domain.Errors.{Error, PgError, pg}
use iam_catalog_admin.Exec.{Result, ok, err}
use iam_catalog_admin.Postgres.Statement.{
  Update, Arg, uuid, text, bool, int, nullable_int, jsonb, placeholder, mentions,
}

abbrev pub violation : String → String → Error
violation state name = pg (record { sqlstate = state; constraint = name; message = "violation" })

abbrev pub eq_bool : Bool → Bool → Bool
eq_bool true b = b
eq_bool false b = not b

abbrev pub is_positive : ℤ → Bool
is_positive (pos n) = ltb 0 n
is_positive (negsuc n) = false

-- The CHECK constraints of departments.
unfoldable pub department_checks : Department → Option Error
department_checks d =
    if d.is_system && not d.is_active
    then some (violation "23514" "chk_system_department_active")
    else if is_empty d.code
    then some (violation "23514" "departments_code_not_empty")
    else if is_empty d.name
    then some (violation "23514" "departments_name_not_empty")
    else if not (is_positive d.record_version)
    then some (violation "23514" "departments_record_version_positive")
    else none

-- A new row with the defaults of its columns.
abbrev pub new_row : Time → Department → Department
new_row now d = record d { record_version = pos 1; created_at = now; updated_at = now }

-- The unique indexes, once the checks have passed.
unfoldable pub insert_checked :
    Department → List Department → Option Error → Result Department × List Department
unfolding any
insert_checked row rows (some e) = (err e, rows)
insert_checked row rows none =
    if any (λ r. eqb r.id row.id) rows
    then (err (violation "23505" "departments_pkey"), rows)
    else if any (λ r. r.code == row.code) rows
    then (err (violation "23505" "uq_departments_code"), rows)
    else (ok row, rows ++ row ∷ [])

-- INSERT INTO departments … RETURNING, with texts that the server could read and the index takes:
-- `insert_row` of the repository has the errors of those that it does not.
unfoldable pub insert_department :
    Time → Department → List Department → Result Department × List Department
insert_department now d rows =
    insert_checked (new_row now d) rows (department_checks (new_row now d))

-- One assignment of a SET list; `none` if the column has another type.
abbrev assign_department : String → Option Arg → Department → Option Department
assign_department column (some (text s)) d =
    if column == "name" then some (record d { name = s }) else none
assign_department column (some (bool b)) d =
    if column == "is_active" then some (record d { is_active = b }) else none
assign_department column _ d = none

unfoldable pub assign_departments : List (String × ℕ) → List Arg → Department → Option Department
unfolding placeholder
assign_departments [] args d = some d
assign_departments ((column, n) ∷ sets) args d =
    elim (assign_department column (placeholder args n) d) [
      | none ↦ none
      | some d' ↦ assign_departments sets args d'
    ]

-- OLD.record_version + 1; `none` past the end of bigint.
abbrev pub next_version : ℤ → Option ℤ
next_version (pos n) = if ltb n max_int64 then some (pos (n + 1)) else none
next_version (negsuc zero) = some (pos 0)
next_version (negsuc (suc n)) = some (negsuc n)

unfoldable pub same_department : Department → Department → Bool
same_department a b =
    eqb a.id b.id
    && a.code == b.code
    && a.name == b.name
    && eq_bool a.is_system b.is_system
    && eq_bool a.is_active b.is_active
    && eq_ℤ a.record_version b.record_version
    && eqb a.created_at b.created_at
    && eqb a.updated_at b.updated_at

-- trg_system_department_name_immutable
unfoldable pub name_trigger : Department → Department → Option Error
name_trigger old new =
    if old.is_system && not (old.name == new.name)
    then some (violation "23514" "chk_system_department_name_immutable")
    else none

-- trg_touch_departments, with its WHEN condition
unfoldable pub touch_department : Time → Department → Department → Result Department
unfolding same_department
touch_department now old new =
    if same_department old new then ok new else elim (next_version old.record_version) [
      | none ↦ err (violation "22003" "")
      | some v ↦ ok (record new { record_version = v; updated_at = now })
    ]

-- The CHECK constraints on a row that is to be written.
unfoldable pub checked : Result Department → Result Department
checked (err e) = err e
checked (ok row) = elim (department_checks row) [ some e ↦ err e | none ↦ ok row ]

-- A trigger that may raise, before what follows it.
unfoldable pub guarded : Option Error → Result Department → Result Department
guarded (some e) r = err e
guarded none r = r

-- BEFORE UPDATE OF name
unfoldable pub name_guard : Update → Department → Department → Option Error
unfolding mentions
name_guard u old new = if mentions "name" u then name_trigger old new else none

-- The triggers in the order of their names, then the checks.
unfoldable pub triggered : Time → Update → Department → Option Department → Result Department
triggered now u old none = err (violation "42804" "")
triggered now u old (some new) =
    guarded (name_guard u old new) (checked (touch_department now old new))

-- The row that an UPDATE leaves in place of `old`.
unfoldable pub updated_department : Time → Update → Department → Result Department
updated_department now u old = triggered now u old (assign_departments u.sets u.args old)

unfoldable pub replace_department : Uuid → Department → List Department → List Department
replace_department id row = map (λ d. if eqb d.id id then row else d)

-- SELECT … WHERE id = $1
unfoldable pub department_at : Uuid → List Department → Option Department
department_at id = find (λ d. eqb d.id id)

-- The row that is found and has the expected version is updated, with arguments that the server could
-- read: `update_rows` of the repository has the errors of those that it cannot.
unfoldable pub update_found :
    Time
    → Uuid
    → ℤ
    → Update
    → List Department
    → Option Department
    → Result (Option Department) × List Department
update_found now id version u rows none = (ok none, rows)
update_found now id version u rows (some old) =
    if eq_ℤ old.record_version version
    then elim (updated_department now u old) [
      | err e ↦ (err e, rows)
      | ok row ↦ (ok (some row), replace_department id row rows)
    ]
    else (ok none, rows)

-- UPDATE departments SET … WHERE id = $1 AND record_version = $2 RETURNING …: at most one row has
-- the id. The result is the row returned, if there is one.
unfoldable pub update_departments :
    Time → Uuid → ℤ → Update → List Department → Result (Option Department) × List Department
update_departments now id version u rows =
    update_found now id version u rows (department_at id rows)
