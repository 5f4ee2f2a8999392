-- ===== src/Postgres/Department/Deciding.antt =====
-- What an UPDATE of a well formed row comes to, by the fields that the patch sets: the assignments,
-- the two triggers and the checks together.
use iam_catalog_admin.Base.{
  List, [], ◌∷◌, eqb, find, ℕ, String, Bool, true, false, not, ◌&&◌, Option, none, some, ℤ, ◌≡◌,
  ◌≢◌, refl, inl, inr, arith, Bool-cases, Option-cases, any, ◌==◌, if◌then◌else◌,
}
use iam_catalog_admin.Base.Text.{is_empty}
use iam_catalog_admin.Domain.{Department, Uuid}
use iam_catalog_admin.Exec.{Result, ok, err}
use iam_catalog_admin.Postgres.Statement.{set_column, mentions, placeholder}
use iam_catalog_admin.Postgres.Schema.Invariant.{IsCatalog}
use iam_catalog_admin.Postgres.Schema.{
  department_at, violation, assign_departments, updated_department, touch_department, triggered,
  guarded, checked, name_guard, name_trigger, next_version, department_checks, same_department,
  is_positive,
}
use iam_catalog_admin.Postgres.Schema.Rows.{IsRow, row_passes, next_version-positive}
use iam_catalog_admin.Postgres.Department.{department_update}

abbrev pub or_old {ℓ} : {A : Type ℓ} → Option A → A → A
or_old none a = a
or_old (some b) a = b

-- The row with the fields of the patch.
abbrev pub patched : Option String → Option Bool → Department → Department
patched name is_active d = record d {
  name = or_old name d.name;
  is_active = or_old is_active d.is_active;
}

-- The patch gives the row another name.
abbrev pub renames : Option String → Department → Bool
renames none d = false
renames (some n) d = not (d.name == n)

abbrev pub retires : Option Bool → Bool
retires (some b) = not b
retires none = false

assigned :
    (id : Uuid) (name : Option String) (is_active : Option Bool) (version : ℤ) (d : Department)
    → (assign_departments
        (department_update id name is_active version).sets
        (department_update id name is_active version).args
        d)
      ≡ some (patched name is_active d)
unfolding department_update set_column assign_departments placeholder
assigned id none none version d = refl
assigned id (some n) none version d = refl
assigned id none (some b) version d = refl
assigned id (some n) (some b) version d = refl

unnamed :
    (b : Bool)
    → none ≡ (
        if b && false
        then some (violation "23514" "chk_system_department_name_immutable")
        else none)
unnamed true = refl
unnamed false = refl

guarded_name :
    (id : Uuid) (name : Option String) (is_active : Option Bool) (version : ℤ) (d : Department)
    → name_guard (department_update id name is_active version) d (patched name is_active d) ≡ (
        if d.is_system && renames name d
        then some (violation "23514" "chk_system_department_name_immutable")
        else none)
unfolding department_update set_column name_guard name_trigger mentions any
guarded_name id none none version d = unnamed d.is_system
guarded_name id (some n) none version d = refl
guarded_name id none (some b) version d = unnamed d.is_system
guarded_name id (some n) (some b) version d = refl

-- The row that the touching trigger lets through.
record IsTouched (new row : Department) : Type 0 where
  is_system : row.is_system ≡ new.is_system
  is_active : row.is_active ≡ new.is_active
  code : row.code ≡ new.code
  name : row.name ≡ new.name
  positive : is_positive new.record_version ≡ true → is_positive row.record_version ≡ true

touched :
    (now : ℕ) (old new : Department)
    → next_version old.record_version ≢ none
    → old.record_version ≡ new.record_version
    → (row : Department) × (touch_department now old new ≡ ok row) × IsTouched new row
unfolding touch_department
touched now old new room same = elim (Bool-cases (same_department old new)) [
  | inl equal ↦ (
    new,
    rw equal refl,
    record { is_system = refl; is_active = refl; code = refl; name = refl; positive = λ h. h },
  )
  | inr differs ↦ elim (Option-cases (next_version old.record_version)) [
    | inl full ↦ absurd (room full)
    | inr (v, next) ↦ (
      record new { record_version = v; updated_at = now },
      rw (differs, next) refl,
      record {
        is_system = refl;
        is_active = refl;
        code = refl;
        name = refl;
        positive = λ h. next_version-positive old.record_version v (rw same h) next;
      },
    )
  ]
]

stays_active :
    (is_active : Option Bool) (old : Department)
    → IsRow old
    → old.is_system && retires is_active ≡ false
    → old.is_system && not (or_old is_active old.is_active) ≡ false
stays_active none old r h = ground (arith, r.system_active)
stays_active (some b) old r h = h

module _ (now : ℕ) (id : Uuid) (name : Option String) (is_active : Option Bool) (version : ℤ)
    (old : Department) where
  abbrev update_of : Result Department
  update_of = updated_department now (department_update id name is_active version) old

  decided :
      update_of
      ≡ guarded
          (if old.is_system && renames name old
            then some (violation "23514" "chk_system_department_name_immutable")
            else none)
          (checked (touch_department now old (patched name is_active old)))
  unfolding updated_department triggered
  decided =
      rw (assigned id name is_active version old, guarded_name id name is_active version old) refl

  -- A new name for a system department.
  pub renamed-refused :
      old.is_system && renames name old ≡ true
      → update_of ≡ err (violation "23514" "chk_system_department_name_immutable")
  unfolding guarded
  renamed-refused h = rw (decided, h) refl

  -- The retirement of a system department under its name.
  pub retired-refused :
      old.is_system && renames name old ≡ false
      → old.is_system && retires is_active ≡ true
      → next_version old.record_version ≢ none
      → update_of ≡ err (violation "23514" "chk_system_department_active")
  unfolding guarded checked department_checks
  retired-refused kept h room =
      let (row, passed, t) = touched now old (patched name is_active old) room refl in
      rw (decided, kept, passed) (ground (arith, t.is_system, t.is_active, h))

  -- Any other patch with a name that is not empty.
  pub accepted :
      old.is_system && renames name old ≡ false
      → old.is_system && retires is_active ≡ false
      → next_version old.record_version ≢ none
      → IsRow old
      → is_empty (or_old name old.name) ≡ false
      → (row : Department) × (update_of ≡ ok row)
  unfolding guarded checked
  accepted kept active room is_row named =
      let (row, passed, t) = touched now old (patched name is_active old) room refl in
      (
        row,
        rw
            (
              decided,
              kept,
              passed,
              checked,
              row_passes row
                  (rw (t.is_system, t.is_active) (stays_active is_active old is_row active))
                  (rw t.code is_row.has_code) (rw t.name named) (t.positive is_row.positive),
            )
            refl,
      )

pub department_at-IsRow :
    (id : Uuid) (rows : List Department) {old : Department}
    → IsCatalog rows
    → department_at id rows ≡ some old
    → IsRow old
unfolding department_at find
department_at-IsRow id [] c h = cc
department_at-IsRow id (d ∷ rows) {old} c h = elim (Bool-cases (eqb d.id id)) [
  | inl hit ↦ let same : d ≡ old = ground (arith, hit, h) in rw same at c.0
  | inr other ↦ department_at-IsRow id rows c.2 (ground (arith, other, h))
]
