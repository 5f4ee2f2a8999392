-- ===== src/Postgres/Schema/Invariant.antt =====
-- The well-formedness of the table departments, and how its rows evolve.
use iam_catalog_admin.Base.{
  false, Option, none, some, List, [], ◌∷◌, ◌++◌, ◌≡◌, ◌≢◌, refl, ◌∙◌, inl, inr, arith, ◌==◌,
  eq_iff, Bool-cases, eqb, any, All, ◌≤ℤ◌,
}
use iam_catalog_admin.Domain.{Department, Time}
use iam_catalog_admin.Domain.Errors.{Error}
use iam_catalog_admin.Exec.{Result, ok, err}
use iam_catalog_admin.Postgres.Schema.{
  insert_department, insert_checked, new_row, violation, department_checks,
}
use iam_catalog_admin.Postgres.Schema.Rows.{IsRow, SameKey, SameKey-refl, department_checks-IsRow}

-- Two rows that the unique indexes allow beside one another.
abbrev pub Apart : Department → Department → Type 0
Apart a b = (a.id ≢ b.id) × (a.code ≢ b.code)

-- Every row passes the checks, and no two have an id or a code in common.
abbrev pub IsCatalog : List Department → Type 0
IsCatalog [] = Unit
IsCatalog (d ∷ ds) = IsRow d × All (Apart d) ds × IsCatalog ds

-- A row after some statements: its key columns stay and its version does not fall.
pub record IsLater (a b : Department) : Type 0 where
  pub same_key : SameKey a b
  pub version : a.record_version ≤ℤ b.record_version

-- Every row of the first table has its later form at the same place of the second, which may have
-- more rows behind.
abbrev pub Evolved : List Department → List Department → Type 0
Evolved [] rows = Unit
Evolved (a ∷ xs) [] = ⊥
Evolved (a ∷ xs) (b ∷ ys) = IsLater a b × Evolved xs ys

pub IsLater-refl : (a : Department) → IsLater a a
IsLater-refl a = record { same_key = SameKey-refl a; version = omega arith }

pub Evolved-refl : (rows : List Department) → Evolved rows rows
Evolved-refl [] = tt
Evolved-refl (a ∷ rows) = (IsLater-refl a, Evolved-refl rows)

IsLater-trans : {a b c : Department} → IsLater a b → IsLater b c → IsLater a c
IsLater-trans h k = record {
  same_key = record {
    id = h.same_key.id ∙ k.same_key.id;
    code = h.same_key.code ∙ k.same_key.code;
    is_system = h.same_key.is_system ∙ k.same_key.is_system;
    created_at = h.same_key.created_at ∙ k.same_key.created_at;
  };
  version = omega (arith, h.version, k.version);
}

pub Evolved-trans : (xs ys zs : List Department) → Evolved xs ys → Evolved ys zs → Evolved xs zs
Evolved-trans [] ys zs h k = tt
Evolved-trans (a ∷ xs) [] zs h k = absurd h
Evolved-trans (a ∷ xs) (b ∷ ys) [] h k = absurd k
Evolved-trans (a ∷ xs) (b ∷ ys) (c ∷ zs) h k =
    (IsLater-trans h.0 k.0, Evolved-trans xs ys zs h.1 k.1)

Evolved-append : (rows more : List Department) → Evolved rows (rows ++ more)
Evolved-append [] more = tt
Evolved-append (a ∷ rows) more = (IsLater-refl a, Evolved-append rows more)

-- The index tests of INSERT.
Apart-of_tests :
    (row : Department) (rows : List Department)
    → any (λ r. eqb r.id row.id) rows ≡ false
    → any (λ r. r.code == row.code) rows ≡ false
    → All (λ r. Apart r row) rows
unfolding any
Apart-of_tests row [] h k = tt
Apart-of_tests row (r ∷ rows) h k = (
  (ground (arith), λ e. ground (arith, eq_iff r.code row.code)),
  Apart-of_tests row rows (ground arith) (ground arith),
)

All-append_one :
    (d row : Department) (rows : List Department)
    → All (Apart d) rows
    → Apart d row
    → All (Apart d) (rows ++ row ∷ [])
All-append_one d row [] h a = (a, tt)
All-append_one d row (r ∷ rows) h a = (h.0, All-append_one d row rows h.1 a)

IsCatalog-append_one :
    (rows : List Department) (row : Department)
    → IsCatalog rows
    → All (λ r. Apart r row) rows
    → IsRow row
    → IsCatalog (rows ++ row ∷ [])
IsCatalog-append_one [] row h a r = (r, tt, tt)
IsCatalog-append_one (d ∷ rows) row h a r =
    (h.0, All-append_one d row rows h.1 a.0, IsCatalog-append_one rows row h.2 a.1 r)

-- How an INSERT ends: the row is added at the end and fits beside the others, or nothing changes.
pub data Inserted (row : Department) (rows : List Department)
    (r : Result Department × List Department) : Type 0 where
  added :
      IsRow row → All (λ x. Apart x row) rows → r ≡ (ok row, rows ++ row ∷ []) → Inserted row rows r
  refused : (e : Error) → r ≡ (err e, rows) → Inserted row rows r

insert_checked-Inserted :
    (row : Department) (rows : List Department) (c : Option Error)
    → department_checks row ≡ c
    → Inserted row rows (insert_checked row rows c)
unfolding insert_checked
insert_checked-Inserted row rows (some e) h = refused e refl
insert_checked-Inserted row rows none h = elim (Bool-cases (any (λ r. eqb r.id row.id) rows)) [
  | inl dup ↦ refused (violation "23505" "departments_pkey") (rw dup)
  | inr new_id ↦ elim (Bool-cases (any (λ r. r.code == row.code) rows)) [
    | inl dup ↦ refused (violation "23505" "uq_departments_code") (rw (new_id, dup))
    | inr new_code ↦
        added (department_checks-IsRow row h) (Apart-of_tests row rows new_id new_code)
          (rw (new_id, new_code))
  ]
]

pub insert_department-Inserted :
    (now : Time) (d : Department) (rows : List Department)
    → Inserted (new_row now d) rows (insert_department now d rows)
unfolding insert_department
insert_department-Inserted now d rows = insert_checked-Inserted (new_row now d) rows _ refl

-- A table after a statement: it is well formed if it was, and its rows are there, in later forms.
pub record Sound (before after : List Department) : Type 0 where
  pub catalog : IsCatalog before → IsCatalog after
  pub evolved : IsCatalog before → Evolved before after

Inserted-Sound :
    (row : Department) (rows : List Department) (r : Result Department × List Department)
    → Inserted row rows r
    → Sound rows r.1
Inserted-Sound row rows r (added is_row apart e) = rw e (record {
  catalog = λ h. IsCatalog-append_one rows row h apart is_row;
  evolved = λ h. Evolved-append rows (row ∷ []);
})
Inserted-Sound row rows r (refused x e) =
    rw e (record { catalog = λ h. h; evolved = λ h. Evolved-refl rows })

pub insert_department-Sound :
    (now : Time) (d : Department) (rows : List Department)
    → Sound rows (insert_department now d rows).1
insert_department-Sound now d rows =
    Inserted-Sound (new_row now d) rows _ (insert_department-Inserted now d rows)
