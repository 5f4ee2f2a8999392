-- ===== src/Postgres/Schema/Rows.antt =====
-- What one INSERT or UPDATE makes of a row of departments.
use iam_catalog_admin.Base.{
  ℕ, String, true, false, not, ◌&&◌, Option, none, some, ℤ, pos, negsuc, List, [], ◌∷◌, ◌≡◌, refl,
  ◌⊎◌, inl, inr, arith, Bool-cases, Option-cases,
}
use iam_catalog_admin.Base.Text.{is_empty}
use iam_catalog_admin.Domain.{Department, Time}
use iam_catalog_admin.Exec.{Result, ok, err}
use iam_catalog_admin.Postgres.Statement.{Update, Arg, text, bool, placeholder}
use iam_catalog_admin.Postgres.Schema.{
  department_checks, assign_department, assign_departments, next_version, same_department,
  touch_department, updated_department, triggered, guarded, checked, is_positive,
}

-- What the CHECK constraints ask of a row.
pub record IsRow (d : Department) : Type 0 where
  pub system_active : d.is_system ≡ true → d.is_active ≡ true
  pub has_code : is_empty d.code ≡ false
  pub has_name : is_empty d.name ≡ false
  pub positive : is_positive d.record_version ≡ true

pub department_checks-IsRow : (d : Department) → department_checks d ≡ none → IsRow d
unfolding department_checks
department_checks-IsRow d h = record {
  system_active = λ s. ground arith;
  has_code = ground arith;
  has_name = ground arith;
  positive = ground arith;
}

pub row_passes :
    (row : Department)
    → row.is_system && not row.is_active ≡ false
    → is_empty row.code ≡ false
    → is_empty row.name ≡ false
    → is_positive row.record_version ≡ true
    → department_checks row ≡ none
unfolding department_checks
row_passes row a b c d = rw (department_checks, a, b, c, d) refl

pub next_version-positive :
    (a b : ℤ) → is_positive a ≡ true → next_version a ≡ some b → is_positive b ≡ true
next_version-positive (pos n) b h e = ground arith
next_version-positive (negsuc n) b h e = cc

-- The columns that no UPDATE of the program assigns.
pub record SameKey (a b : Department) : Type 0 where
  pub id : a.id ≡ b.id
  pub code : a.code ≡ b.code
  pub is_system : a.is_system ≡ b.is_system
  pub created_at : a.created_at ≡ b.created_at

pub SameKey-refl : (a : Department) → SameKey a a
SameKey-refl a = record { id = refl; code = refl; is_system = refl; created_at = refl }

assign_department-SameKey :
    (column : String) (v : Option Arg) (d : Department) {d' : Department}
    → assign_department column v d ≡ some d'
    → SameKey d d' × (d.record_version ≡ d'.record_version)
assign_department-SameKey column (some (text s)) d h = ground arith
assign_department-SameKey column (some (bool b)) d h = ground arith
assign_department-SameKey column _ d h = cc

pub assign_departments-SameKey :
    (sets : List (String × ℕ)) (args : List Arg) (d : Department) {d' : Department}
    → assign_departments sets args d ≡ some d'
    → SameKey d d' × (d.record_version ≡ d'.record_version)
unfolding assign_departments
assign_departments-SameKey [] args d h = ground arith
assign_departments-SameKey ((column, n) ∷ sets) args d {d'} h =
    elim (Option-cases (assign_department column (placeholder args n) d)) [
      | inl none_eq ↦ ground arith
      | inr (d1, some_eq) ↦
          let first = assign_department-SameKey column (placeholder args n) d some_eq in
          let later : assign_departments sets args d1 ≡ some d' = ground arith in
          let rest = assign_departments-SameKey sets args d1 later in ground (arith, first, rest)
    ]

touch_department-SameKey :
    (now : Time) (old new : Department) {row : Department}
    → touch_department now old new ≡ ok row
    → SameKey new row × ((row ≡ new) ⊎ (next_version old.record_version ≡ some row.record_version))
unfolding touch_department
touch_department-SameKey now old new h = elim (Bool-cases (same_department old new)) [
  | inl same ↦ (ground arith, inl (ground arith))
  | inr differs ↦ elim (Option-cases (next_version old.record_version)) [
    | inl full ↦ ground arith
    | inr (v, next) ↦ (ground arith, inr (ground arith))
  ]
]

-- A row that UPDATE leaves: its key columns are those before, it passes the checks, and its version is
-- the one before or the next.
pub record IsUpdate (old row : Department) : Type 0 where
  pub same_key : SameKey old row
  pub is_row : IsRow row
  pub version :
      (old.record_version ≡ row.record_version)
      ⊎ (next_version old.record_version ≡ some row.record_version)

pub checked-eq-ok :
    (r : Result Department) {row : Department}
    → checked r ≡ ok row
    → (r ≡ ok row) × (department_checks row ≡ none)
unfolding checked
checked-eq-ok (err e) h = cc
checked-eq-ok (ok d) {row} h = ground arith

touched-IsUpdate :
    (now : Time) (old new : Department) {row : Department}
    → SameKey old new × (old.record_version ≡ new.record_version)
    → checked (touch_department now old new) ≡ ok row
    → IsUpdate old row
touched-IsUpdate now old new {row} k h =
    let (touched, passes) = checked-eq-ok (touch_department now old new) h in
    let t = touch_department-SameKey now old new touched in
    record {
      same_key = ground (arith, k, t);
      is_row = department_checks-IsRow row passes;
      version = ground (arith, k, t);
    }

pub updated_department-IsUpdate :
    (now : Time) (u : Update) (old : Department) {row : Department}
    → updated_department now u old ≡ ok row
    → IsUpdate old row
unfolding updated_department triggered guarded
updated_department-IsUpdate now u old h =
    elim (Option-cases (assign_departments u.sets u.args old)) [
      | inl none_eq ↦ ground arith
      | inr (new, some_eq) ↦
          touched-IsUpdate now old new (assign_departments-SameKey u.sets u.args old some_eq)
            (ground arith)
    ]
