-- ===== src/Postgres/Schema/Updates.antt =====
-- How an UPDATE changes the table departments, and that it keeps the table well formed.
use mathlib.Core.Path.{subst}
use iam_catalog_admin.Base.{
  Option, none, some, ℤ, pos, negsuc, zero, suc, List, [], ◌∷◌, ◌≡◌, ◌≢◌, refl, sym, ◌∙◌, inl, inr,
  arith, Bool-cases, eqb, eqb_iff, eq_ℤ, eq_ℤ_iff, find, All, ◌≤ℤ◌,
}
use iam_catalog_admin.Domain.{Department, Time, Uuid}
use iam_catalog_admin.Domain.Errors.{Error}
use iam_catalog_admin.Exec.{Result, ok, err, Result-cases}
use iam_catalog_admin.Postgres.Statement.{Update}
use iam_catalog_admin.Postgres.Schema.{
  update_found, update_departments, updated_department, replace_department, department_at,
  next_version,
}
use iam_catalog_admin.Postgres.Schema.Rows.{IsUpdate, updated_department-IsUpdate}
use iam_catalog_admin.Postgres.Schema.Invariant.{
  Apart, Evolved, Evolved-refl, IsCatalog, IsLater, IsLater-refl, Sound,
}

department_at-Apart :
    (d : Department) (id : Uuid) (rows : List Department) {old : Department}
    → All (Apart d) rows
    → department_at id rows ≡ some old
    → Apart d old
unfolding department_at find
department_at-Apart d id [] a h = cc
department_at-Apart d id (r ∷ rows) {old} a h = elim (Bool-cases (eqb r.id id)) [
  | inl hit ↦ let same : r ≡ old = ground arith in subst (λ (x : Department). Apart d x) same a.0
  | inr other ↦ department_at-Apart d id rows {old = old} a.1 (ground arith)
]

pub department_at-id :
    (id : Uuid) (rows : List Department) {old : Department}
    → department_at id rows ≡ some old
    → old.id ≡ id
unfolding department_at find
department_at-id id [] h = cc
department_at-id id (r ∷ rows) {old} h = elim (Bool-cases (eqb r.id id)) [
  | inl hit ↦ ground arith
  | inr other ↦ department_at-id id rows {old = old} (ground arith)
]

replace_department-absent :
    (id : Uuid) (row d : Department) (rows : List Department)
    → d.id ≡ id
    → All (Apart d) rows
    → replace_department id row rows ≡ rows
unfolding replace_department
replace_department-absent id row d [] e a = refl
replace_department-absent id row d (r ∷ rows) e a =
    ground (arith, a.0.0, replace_department-absent id row d rows e a.1)

All-replace :
    (d : Department) (id : Uuid) (row : Department) (rows : List Department)
    → All (Apart d) rows
    → Apart d row
    → All (Apart d) (replace_department id row rows)
unfolding replace_department
All-replace d id row [] a r = tt
All-replace d id row (x ∷ rows) a r = (
  elim (Bool-cases (eqb x.id id)) [ inl e ↦ rw e r | inr e ↦ rw e a.0 ],
  All-replace d id row rows a.1 r,
)

pub next_version-le : (a b : ℤ) → next_version a ≡ some b → a ≤ℤ b
next_version-le (pos n) b h = ground arith
next_version-le (negsuc zero) b h = ground arith
next_version-le (negsuc (suc n)) b h = ground arith

IsUpdate-IsLater : {a b : Department} → IsUpdate a b → IsLater a b
IsUpdate-IsLater {a} {b} u = record {
  same_key = u.same_key;
  version = elim u.version [
    | inl same ↦ rw same (omega arith)
    | inr next ↦ next_version-le a.record_version b.record_version next
  ];
}

Apart-IsUpdate :
    (d : Department) {old row : Department} → Apart d old → IsUpdate old row → Apart d row
Apart-IsUpdate d a u = (λ e. a.0 (e ∙ sym u.same_key.id), λ e. a.1 (e ∙ sym u.same_key.code))

All-Apart-IsUpdate :
    (d row : Department) (rows : List Department)
    → IsUpdate d row
    → All (Apart d) rows
    → All (Apart row) rows
All-Apart-IsUpdate d row [] u a = tt
All-Apart-IsUpdate d row (r ∷ rows) u a = (
  (λ e. a.0.0 (u.same_key.id ∙ e), λ e. a.0.1 (u.same_key.code ∙ e)),
  All-Apart-IsUpdate d row rows u a.1,
)

-- Replacing the row that is found by its update.
replace_department-IsCatalog :
    (id : Uuid) (row : Department) (rows : List Department) {old : Department}
    → department_at id rows ≡ some old
    → IsUpdate old row
    → IsCatalog rows
    → IsCatalog (replace_department id row rows) × Evolved rows (replace_department id row rows)
unfolding department_at replace_department find
replace_department-IsCatalog id row [] h u c = cc
replace_department-IsCatalog id row (d ∷ rows) {old} h u c = elim (Bool-cases (eqb d.id id)) [
  | inl hit ↦
      let same : d ≡ old = ground arith in
      let u' = subst (λ (x : Department). IsUpdate x row) (sym same) u in
      let e = replace_department-absent id row d rows ((eqb_iff d.id id).0 hit) c.1 in
      rw (hit, e)
        (
          (u.is_row, All-Apart-IsUpdate d row rows u' c.1, c.2),
          (IsUpdate-IsLater u', Evolved-refl rows),
        )
  | inr other ↦
      let found : department_at id rows ≡ some old = ground arith in
      let (ih, later) = replace_department-IsCatalog id row rows {old = old} found u c.2 in
      let apart = Apart-IsUpdate d (department_at-Apart d id rows c.1 found) u in
      rw other ((c.0, All-replace d id row rows c.1 apart, ih), (IsLater-refl d, later))
]

-- How an UPDATE ends: no row has the id, the row has another version, a trigger or a check raises, or
-- the row is replaced.
pub data Updated (now : Time) (id : Uuid) (version : ℤ) (u : Update) (rows : List Department)
    (r : Result (Option Department) × List Department) : Type 0 where
  missing : department_at id rows ≡ none → r ≡ (ok none, rows) → Updated now id version u rows r
  stale :
      (old : Department)
      → department_at id rows ≡ some old
      → old.record_version ≢ version
      → r ≡ (ok none, rows)
      → Updated now id version u rows r
  raised : (e : Error) → r ≡ (err e, rows) → Updated now id version u rows r
  done :
      (old row : Department)
      → department_at id rows ≡ some old
      → old.record_version ≡ version
      → updated_department now u old ≡ ok row
      → r ≡ (ok (some row), replace_department id row rows)
      → Updated now id version u rows r

update_found-Updated :
    (now : Time) (id : Uuid) (version : ℤ) (u : Update) (rows : List Department)
    (o : Option Department)
    → department_at id rows ≡ o
    → Updated now id version u rows (update_found now id version u rows o)
unfolding update_found
update_found-Updated now id version u rows none h = missing h refl
update_found-Updated now id version u rows (some old) h =
    elim (Bool-cases (eq_ℤ old.record_version version)) [
      | inr other ↦
          stale old h (λ e. ground (arith, (eq_ℤ_iff old.record_version version).1 e)) (rw other)
      | inl same ↦ elim (Result-cases (updated_department now u old)) [
        | inl (row, e) ↦
            done old row h ((eq_ℤ_iff old.record_version version).0 same) e (rw (same, e))
        | inr (x, e) ↦ raised x (rw (same, e))
      ]
    ]

pub update_departments-Updated :
    (now : Time) (id : Uuid) (version : ℤ) (u : Update) (rows : List Department)
    → Updated now id version u rows (update_departments now id version u rows)
unfolding update_departments
update_departments-Updated now id version u rows =
    update_found-Updated now id version u rows (department_at id rows) refl

unchanged : (rows : List Department) → Sound rows rows
unchanged rows = record { catalog = λ h. h; evolved = λ h. Evolved-refl rows }

Updated-Sound :
    (now : Time) (id : Uuid) (version : ℤ) (u : Update) (rows : List Department)
    (r : Result (Option Department) × List Department)
    → Updated now id version u rows r
    → Sound rows r.1
Updated-Sound now id version u rows r (missing h e) = rw e (unchanged rows)
Updated-Sound now id version u rows r (stale old h x e) = rw e (unchanged rows)
Updated-Sound now id version u rows r (raised x e) = rw e (unchanged rows)
Updated-Sound now id version u rows r (done old row h v k e) =
    let update = updated_department-IsUpdate now u old k in
    rw e (record {
      catalog = λ c. (replace_department-IsCatalog id row rows h update c).0;
      evolved = λ c. (replace_department-IsCatalog id row rows h update c).1;
    })

pub update_departments-Sound :
    (now : Time) (id : Uuid) (version : ℤ) (u : Update) (rows : List Department)
    → Sound rows (update_departments now id version u rows).1
update_departments-Sound now id version u rows =
    Updated-Sound now id version u rows _ (update_departments-Updated now id version u rows)
