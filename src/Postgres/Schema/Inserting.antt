-- ===== src/Postgres/Schema/Inserting.antt =====
-- What INSERT makes of a row that passes the checks.
use iam_catalog_admin.Base.{
  ℕ, Bool, true, false, not, ◌&&◌, none, List, ◌≡◌, refl, inl, inr, any, eqb, ◌==◌, Bool-cases,
  if◌then◌else◌,
}
use iam_catalog_admin.Base.Text.{is_empty}
use iam_catalog_admin.Domain.{Department}
use iam_catalog_admin.Exec.{ok, err}
use iam_catalog_admin.Postgres.Schema.{insert_department, insert_checked, new_row, violation}
use iam_catalog_admin.Postgres.Schema.Rows.{row_passes}

indexed :
    (row : Department) (rows : List Department)
    → (insert_checked row rows none).0 ≡ (
        if any (λ r. eqb r.id row.id) rows
        then err (violation "23505" "departments_pkey")
        else if any (λ r. r.code == row.code) rows
        then err (violation "23505" "uq_departments_code")
        else ok row)
unfolding insert_checked
indexed row rows = elim (Bool-cases (any (λ r. eqb r.id row.id) rows)) [
  | inl dup ↦ rw dup refl
  | inr fresh ↦ elim (Bool-cases (any (λ r. r.code == row.code) rows)) [
    | inl dup ↦ rw (fresh, dup) refl
    | inr new ↦ rw (fresh, new) refl
  ]
]

-- What INSERT makes of a new department with a code and a name: the checks pass, so that only the
-- indexes can refuse it.
pub insert_department-new :
    (now : ℕ) (d : Department) (rows : List Department)
    → d.is_active ≡ true
    → is_empty d.code ≡ false
    → is_empty d.name ≡ false
    → (insert_department now d rows).0 ≡ (
        if any (λ r. eqb r.id d.id) rows
        then err (violation "23505" "departments_pkey")
        else if any (λ r. r.code == d.code) rows
        then err (violation "23505" "uq_departments_code")
        else ok (new_row now d))
unfolding insert_department
insert_department-new now d rows active has_code has_name =
    rw (row_passes (new_row now d) (alive d.is_system) has_code has_name refl)
      (indexed (new_row now d) rows)
  where
    alive : (b : Bool) → b && not d.is_active ≡ false
    alive true = rw active refl
    alive false = refl
