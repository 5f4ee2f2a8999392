-- ===== src/Postgres/Department/Locking.antt =====
-- Optimistic locking: what Update answers, by the row that it meets.
use iam_catalog_admin.Base.{
  ℕ, Option, none, some, ℤ, List, [], ◌∷◌, ◌≡◌, refl, ◌∙◌, inl, inr, arith, Option-cases,
  Bool-cases, eq_ℤ, if◌then◌else◌,
}
use iam_catalog_admin.Json.{num}
use iam_catalog_admin.Domain.{Department, Uuid}
use iam_catalog_admin.Domain.Errors.{
  Error, pg, PgError, new_error, with_details, err_department_not_found,
  err_optimistic_lock_conflict,
}
use iam_catalog_admin.Exec.{Result, ok, err, on, pure, fail, lift, Result-cases}
use iam_catalog_admin.World.{World}
use iam_catalog_admin.Postgres.Pgx.{Pgx, statement, input_error}
use iam_catalog_admin.Postgres.Statement.{Update}
use iam_catalog_admin.Postgres.Schema.{
  update_departments, update_found, updated_department, department_at, replace_department,
  next_version, touch_department, triggered, guarded, checked, name_guard, name_trigger,
  department_checks, assign_departments,
}
use iam_catalog_admin.Postgres.Department.{
  dept_update_from_tx, probe, probe_if_no_rows, select_row, scan,
}

-- The 409 of a stale version, with the version that the row has.
abbrev pub conflict : ℤ → Error
conflict version =
    with_details (("record_version", num version) ∷ [])
      (new_error err_optimistic_lock_conflict "record version conflict")

abbrev pub not_found : Error
not_found = new_error err_department_not_found "department not found"

-- What the transaction of Update is to do, written over the row with the id.
unfoldable pub expected_update :
    Uuid → ℤ → Update → World → Option Department → Result Department × World
expected_update id version u w none = (err not_found, w)
expected_update id version u w (some old) =
    if eq_ℤ old.record_version version
    then elim (updated_department w.now u old) [
      | err e ↦ (err e, w)
      | ok row ↦ (ok row, record w { departments = replace_department id row w.departments })
    ]
    else (err (conflict old.record_version), w)

-- The errors of triggers and checks are the server's.
abbrev FromServer : Error → Type 0
FromServer e = (x : PgError) × (e ≡ pg x)

department_checks-pg : (d : Department) (e : Error) → department_checks d ≡ some e → FromServer e
unfolding department_checks
department_checks-pg d e h = ground arith

touch_department-pg :
    (now : ℕ) (old new : Department) (e : Error)
    → touch_department now old new ≡ err e
    → FromServer e
unfolding touch_department
touch_department-pg now old new e h = elim (Option-cases (next_version old.record_version)) [
  | inl full ↦ ground arith
  | inr (v, next) ↦ ground arith
]

checked-pg :
    (r : Result Department) (e : Error)
    → ((x : Error) → r ≡ err x → FromServer x)
    → checked r ≡ err e
    → FromServer e
unfolding checked
checked-pg (err x) e k h = ground (arith, k x refl)
checked-pg (ok row) e k h = elim (Option-cases (department_checks row)) [
  | inl pass ↦ ground arith
  | inr (x, raised) ↦ ground (arith, department_checks-pg row x raised)
]

name_guard-pg :
    (u : Update) (old new : Department) (e : Error) → name_guard u old new ≡ some e → FromServer e
unfolding name_guard name_trigger
name_guard-pg u old new e h = ground arith

guarded-pg :
    (o : Option Error) (r : Result Department) (e : Error)
    → ((x : Error) → o ≡ some x → FromServer x)
    → ((x : Error) → r ≡ err x → FromServer x)
    → guarded o r ≡ err e
    → FromServer e
unfolding guarded
guarded-pg (some x) r e k l h = ground (arith, k x refl)
guarded-pg none r e k l h = l e h

updated_department-pg :
    (now : ℕ) (u : Update) (old : Department) {e : Error}
    → updated_department now u old ≡ err e
    → FromServer e
unfolding updated_department triggered
updated_department-pg now u old {e} h = elim (Option-cases (assign_departments u.sets u.args old)) [
  | inl none_eq ↦ ground arith
  | inr (new, some_eq) ↦
      guarded-pg (name_guard u old new) (checked (touch_department now old new)) e
        (name_guard-pg u old new)
        (λ x. checked-pg (touch_department now old new) x (touch_department-pg now old new))
        (ground arith)
]

module _ (p : Pgx) where
  probe_row :
      (id : Uuid) (w : World) (o : Option Department)
      → p.wire w 1 ≡ none
      → department_at id w.departments ≡ o
      → probe p id w ≡ elim o as (λ _. Result Department × World) [
        | none ↦ (err not_found, w)
        | some d ↦ (err (conflict d.record_version), w)
      ]
  unfolding probe
  probe_row id w none sent h = rw (sent, h, select_row, statement)
  probe_row id w (some d) sent h = rw (sent, h, select_row, statement)

  after_update :
      Uuid → World → Result (Option Department) × List Department → Result Department × World
  after_update id w (r, rows) =
      on pure (probe_if_no_rows p id)
        (on (λ row. lift (scan p row)) fail (r, record w { departments = rows }))

  dept_update_from_tx-sent :
      (id : Uuid) (version : ℤ) (u : Update) (w : World)
      → p.wire w 0 ≡ none
      → input_error p u.args ≡ none
      → dept_update_from_tx p id version u w
        ≡ after_update id w (update_departments w.now id version u w.departments)
  unfolding dept_update_from_tx after_update
  dept_update_from_tx-sent id version u w sent read = rw (sent, read, statement)

  -- What the server cannot read is not probed.
  pub dept_update_from_tx-unread :
      (id : Uuid) (version : ℤ) (u : Update) (w : World) (x : PgError)
      → p.wire w 0 ≡ none
      → input_error p u.args ≡ some x
      → dept_update_from_tx p id version u w ≡ (err (pg x), w)
  unfolding dept_update_from_tx
  dept_update_from_tx-unread id version u w x sent unread = rw (sent, unread, statement)

  after_update_found :
      (id : Uuid) (version : ℤ) (u : Update) (w : World) (o : Option Department)
      → p.wire w 1 ≡ none
      → department_at id w.departments ≡ o
      → after_update id w (update_found w.now id version u w.departments o)
        ≡ expected_update id version u w o
  unfolding after_update update_found expected_update
  after_update_found id version u w none sent h = probe_row id w none sent h
  after_update_found id version u w (some old) sent h =
      elim (Bool-cases (eq_ℤ old.record_version version)) [
        | inr other ↦ rw other (probe_row id w (some old) sent h)
        | inl same ↦ elim (Result-cases (updated_department w.now u old)) [
          | inl (row, e) ↦ rw (same, e)
          | inr (x, e) ↦ let (y, is_pg) = updated_department-pg w.now u old e in rw (same, e, is_pg)
        ]
      ]

  -- If the connection fails at neither statement, then the transaction body of Update answers as
  -- `expected_update` says: 404 if no row has the id; the 409 that names the row's version if it is
  -- not the expected one; else the row as triggers and checks leave it, which replaces the old one,
  -- or the error that they raise, with the table as it was. Where the server cannot read an argument,
  -- whatever the row is, the answer is its error for that.
  pub dept_update_from_tx-eq :
      (id : Uuid) (version : ℤ) (u : Update) (w : World)
      → p.wire w 0 ≡ none
      → p.wire w 1 ≡ none
      → dept_update_from_tx p id version u w
        ≡ elim (input_error p u.args) as (λ _. Result Department × World) [
          | some x ↦ (err (pg x), w)
          | none ↦ expected_update id version u w (department_at id w.departments)
        ]
  unfolding update_departments
  dept_update_from_tx-eq id version u w sent0 sent1 = elim (Option-cases (input_error p u.args)) [
    | inr (x, unread) ↦ rw unread (dept_update_from_tx-unread id version u w x sent0 unread)
    | inl read ↦ rw read (
        dept_update_from_tx-sent id version u w sent0 read
        ∙ after_update_found id version u w (department_at id w.departments) sent1 refl)
  ]

  pub dept_update_from_tx-read :
      (id : Uuid) (version : ℤ) (u : Update) (w : World)
      → p.wire w 0 ≡ none
      → p.wire w 1 ≡ none
      → input_error p u.args ≡ none
      → dept_update_from_tx p id version u w
        ≡ expected_update id version u w (department_at id w.departments)
  unfolding update_departments
  dept_update_from_tx-read id version u w sent0 sent1 read =
      dept_update_from_tx-sent id version u w sent0 read
      ∙ after_update_found id version u w (department_at id w.departments) sent1 refl
