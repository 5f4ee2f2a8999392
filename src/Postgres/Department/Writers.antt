-- ===== src/Postgres/Department/Writers.antt =====
-- Two writers that both read version v: the second does not overwrite what the first changed.
use iam_catalog_admin.Base.{
  ℕ, zero, suc, true, Option, none, some, ℤ, pos, negsuc, List, [], ◌∷◌, ◌≡◌, ◌≢◌, sym, ap, ◌∙◌,
  inl, inr, arith, Option-cases, Bool-cases, eqb, eqb_iff, eq_ℤ, eq_ℤ_iff, find, eq_iff,
}
use iam_catalog_admin.Domain.{Department, Uuid}
use iam_catalog_admin.Domain.Errors.{Error}
use iam_catalog_admin.Exec.{Result, ok, err, Result-cases}
use iam_catalog_admin.World.{World}
use iam_catalog_admin.Postgres.Pgx.{Pgx, input_error}
use iam_catalog_admin.Postgres.Statement.{Update}
use iam_catalog_admin.Postgres.Schema.{
  updated_department, department_at, replace_department, next_version, touch_department, triggered,
  guarded, checked, name_guard, assign_departments, same_department,
}
use iam_catalog_admin.Postgres.Schema.Rows.{updated_department-IsUpdate, checked-eq-ok}
use iam_catalog_admin.Postgres.Schema.Updates.{department_at-id}
use iam_catalog_admin.Postgres.Department.{dept_update_from_tx}
use iam_catalog_admin.Postgres.Department.Locking.{
  conflict, expected_update, dept_update_from_tx-read, dept_update_from_tx-unread,
}

same_department-eq : (a b : Department) → same_department a b ≡ true → a ≡ b
unfolding same_department
same_department-eq a b h = ground (arith, eq_iff a.code b.code, eq_iff a.name b.name)

next_version-ne : (a b : ℤ) → next_version a ≡ some b → b ≢ a
next_version-ne (pos n) b h e = ground arith
next_version-ne (negsuc zero) b h e = ground arith
next_version-ne (negsuc (suc n)) b h e = ground arith

touch_department-ne :
    (now : ℕ) (old new row : Department)
    → touch_department now old new ≡ ok row
    → row ≢ old
    → next_version old.record_version ≡ some row.record_version
unfolding touch_department
touch_department-ne now old new row h ne = elim (Bool-cases (same_department old new)) [
  | inl same ↦
      let unchanged : new ≡ row = ground arith in
      absurd (ne (sym (same_department-eq old new same ∙ unchanged)))
  | inr differs ↦ elim (Option-cases (next_version old.record_version)) [
    | inl full ↦ ground arith
    | inr (v, next) ↦ ground arith
  ]
]

guarded-ok :
    (o : Option Error) (r : Result Department) {row : Department}
    → guarded o r ≡ ok row
    → r ≡ ok row
unfolding guarded
guarded-ok (some e) r h = cc
guarded-ok none r h = h

-- An update that changes the row takes its version to the next.
pub updated_department-next :
    (now : ℕ) (u : Update) (old row : Department)
    → updated_department now u old ≡ ok row
    → row ≢ old
    → next_version old.record_version ≡ some row.record_version
unfolding updated_department triggered
updated_department-next now u old row h ne =
    elim (Option-cases (assign_departments u.sets u.args old)) [
      | inl none_eq ↦ ground arith
      | inr (new, some_eq) ↦
          let passed : guarded (name_guard u old new) (checked (touch_department now old new))
              ≡ ok row =
            ground arith in
          let c =
            guarded-ok (name_guard u old new) (checked (touch_department now old new)) passed in
          touch_department-ne now old new row (checked-eq-ok (touch_department now old new) c).0 ne
    ]

department_at-replace :
    (id : Uuid) (row : Department) (rows : List Department) {old : Department}
    → department_at id rows ≡ some old
    → row.id ≡ id
    → department_at id (replace_department id row rows) ≡ some row
unfolding department_at replace_department find
department_at-replace id row [] h e = cc
department_at-replace id row (d ∷ rows) {old} h e = elim (Bool-cases (eqb d.id id)) [
  | inl hit ↦ rw (hit, (eqb_iff row.id id).1 e)
  | inr other ↦ rw (other, other) (department_at-replace id row rows {old = old} (ground arith) e)
]

-- The parts of an update that succeeded.
expected_update-ok :
    (id : Uuid) (version : ℤ) (u : Update) (w w1 : World) (old row : Department)
    → expected_update id version u w (some old) ≡ (ok row, w1)
    → (old.record_version ≡ version)
      × (updated_department w.now u old ≡ ok row)
      × (w1 ≡ record w { departments = replace_department id row w.departments })
unfolding expected_update
expected_update-ok id version u w w1 old row h =
    elim (Bool-cases (eq_ℤ old.record_version version)) [
      | inr other ↦ ground arith
      | inl same ↦ elim (Result-cases (updated_department w.now u old)) [
        | inl (row', e) ↦ ((eq_ℤ_iff old.record_version version).0 same, ground arith, ground arith)
        | inr (x, e) ↦ ground arith
      ]
    ]

expected_update-stale :
    (id : Uuid) (version : ℤ) (u : Update) (w : World) (row : Department)
    → row.record_version ≢ version
    → expected_update id version u w (some row) ≡ (err (conflict row.record_version), w)
unfolding expected_update
expected_update-stale id version u w row ne = elim (Bool-cases (eq_ℤ row.record_version version)) [
  | inl same ↦ absurd (ne ((eq_ℤ_iff row.record_version version).0 same))
  | inr other ↦ rw other
]

-- An update that succeeded was read by the server.
dept_update_from_tx-input :
    (p : Pgx) (id : Uuid) (version : ℤ) (u : Update) (w : World) {w1 : World} {row : Department}
    → p.wire w 0 ≡ none
    → dept_update_from_tx p id version u w ≡ (ok row, w1)
    → input_error p u.args ≡ none
dept_update_from_tx-input p id version u w sent h = elim (Option-cases (input_error p u.args)) [
  | inl read ↦ read
  | inr (x, unread) ↦
      let failed = dept_update_from_tx-unread p id version u w x sent unread in cc (failed, h)
]

-- If a first update that expects version v succeeds and changes the row, then a second update of
-- that row that also expects v, at the state that the first leaves, fails with the 409 that names
-- the row's new version, and changes nothing. The connection holds in both transactions, and the
-- server can read the arguments of the second update.
pub second_writer_conflicts :
    (p : Pgx) (id : Uuid) (version : ℤ) (u1 u2 : Update) (w w1 : World) (old row : Department)
    → p.wire w 0 ≡ none
    → p.wire w 1 ≡ none
    → p.wire w1 0 ≡ none
    → p.wire w1 1 ≡ none
    → department_at id w.departments ≡ some old
    → dept_update_from_tx p id version u1 w ≡ (ok row, w1)
    → row ≢ old
    → input_error p u2.args ≡ none
    → dept_update_from_tx p id version u2 w1 ≡ (err (conflict row.record_version), w1)
second_writer_conflicts p id version u1 u2 w w1 old row a b c d found first changed read2 =
    let read1 = dept_update_from_tx-input p id version u1 w a first in
    let run =
      sym (
        dept_update_from_tx-read p id version u1 w a b read1
        ∙ ap (λ (o : Option Department). expected_update id version u1 w o) found)
      ∙ first in
    let (at_version, updated, after) = expected_update-ok id version u1 w w1 old row run in
    let is_update = updated_department-IsUpdate w.now u1 old updated in
    let row_id : row.id ≡ id =
      sym is_update.same_key.id ∙ department_at-id id w.departments {old = old} found in
    let seen : department_at id w1.departments ≡ some row =
      rw after (department_at-replace id row w.departments {old = old} found row_id) in
    let next = updated_department-next w.now u1 old row updated changed in
    dept_update_from_tx-read p id version u2 w1 c d read2
    ∙ (rw seen (
        expected_update-stale id version u2 w1 row
          (λ e. next_version-ne old.record_version row.record_version next (e ∙ sym at_version))))
