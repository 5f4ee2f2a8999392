-- ===== src/Postgres/Plan/Locking.antt =====
-- Optimistic locking of plans: what Update answers, by the row that it meets.
use iam_catalog_admin.Postgres.Plan.Found.{
  Found, updated_plan-Found, plan_at-Found, encoding_error-Found, label_error-Found,
}
use iam_catalog_admin.Base.{
  Option, none, some, ℤ, List, [], ◌∷◌, ◌≡◌, refl, ◌∙◌, inl, inr, Bool-cases, eq_ℤ, if◌then◌else◌,
}
use iam_catalog_admin.Json.{num}
use iam_catalog_admin.Domain.{Plan, TenantPlan}
use iam_catalog_admin.Domain.Errors.{
  PgError, Error, domain, pg, no_rows, redis_nil, canceled, deadline_exceeded, max_bytes, other,
  new_error, with_details, err_plan_not_found, err_optimistic_lock_conflict,
}
use iam_catalog_admin.Exec.{Result, ok, err, on, pure, Result-cases}
use iam_catalog_admin.World.{World}
use iam_catalog_admin.Postgres.Pgx.{input_error, Pgx, IsPgx, statement}
use iam_catalog_admin.Postgres.Statement.{Update}
use iam_catalog_admin.Postgres.PlanSchema.{
  update_plan_found, update_read, encoding_error, label_error, values, updated_plan, replace_plan,
  plan_at, update_plans,
}
use iam_catalog_admin.Postgres.Plan.{scan, probe, probe_if_no_rows, plan_update_from_tx}

-- The 409 of a stale version, with the version that the row has.
abbrev pub plan_conflict : ℤ → Error
plan_conflict version =
    with_details (("record_version", num version) ∷ [])
      (new_error err_optimistic_lock_conflict "record version conflict")

abbrev pub plan_not_found : Error
plan_not_found = new_error err_plan_not_found "plan not found"

-- What the transaction of Update is to do for a plan's code, written over the row that has it.
unfoldable pub expected_plan_update :
    Pgx → TenantPlan → ℤ → Update → World → Option Plan → Result Plan × World
expected_plan_update p code version u w none = (err plan_not_found, w)
expected_plan_update p code version u w (some old) =
    if eq_ℤ old.record_version version
    then elim (updated_plan p w.now u old) [
      | err e ↦ (err e, w)
      | ok row ↦ (ok row, record w { plans = replace_plan p code row w.plans })
    ]
    else (err (plan_conflict old.record_version), w)

-- The first of the errors that the arguments have whatever the rows are, or else what follows.
unfoldable pub unless_rejected :
    World
    → Option Error
    → Result (Option Plan)
    → Option PgError
    → Option Error
    → (Option Plan → Result Plan × World)
    → Result Plan × World
unless_rejected w (some e) found input label next = (err e, w)
unless_rejected w none (err e) input label next = (err e, w)
unless_rejected w none (ok o) (some x) label next = (err (pg x), w)
unless_rejected w none (ok o) none (some e) next = (err e, w)
unless_rejected w none (ok o) none none next = next o

module _ {p : Pgx} (laws : IsPgx p) where
  not_probed :
      (code : TenantPlan) (e : Error) (w : World)
      → Found e
      → probe_if_no_rows p code e w ≡ (err e, w)
  not_probed code no_rows w h = absurd (h refl)
  not_probed code (domain d) w h = refl
  not_probed code (pg d) w h = refl
  not_probed code redis_nil w h = refl
  not_probed code canceled w h = refl
  not_probed code deadline_exceeded w h = refl
  not_probed code max_bytes w h = refl
  not_probed code (other d) w h = refl

  after_update : TenantPlan → World → Result (Option Plan) × List Plan → Result Plan × World
  after_update code w (r, rows) =
      on pure (probe_if_no_rows p code) (scan p r, record w { plans = rows })

  plan_update_from_tx-sent :
      (code : TenantPlan) (version : ℤ) (u : Update) (w : World)
      → p.wire w 0 ≡ none
      → plan_update_from_tx p code version u w
        ≡ after_update code w (update_plans p w.now code version u w.plans)
  unfolding plan_update_from_tx after_update
  plan_update_from_tx-sent code version u w sent = rw (sent, statement)

  probe_plan :
      (code : TenantPlan) (w : World) (o : Option Plan)
      → p.wire w 1 ≡ none
      → plan_at p code w.plans ≡ ok o
      → probe p code w ≡ elim o as (λ _. Result Plan × World) [
        | none ↦ (err plan_not_found, w)
        | some r ↦ (err (plan_conflict r.record_version), w)
      ]
  unfolding probe
  probe_plan code w none sent h = rw (sent, h, statement)
  probe_plan code w (some r) sent h = rw (sent, h, statement)

  after_plan_found :
      (code : TenantPlan) (version : ℤ) (u : Update) (w : World) (o : Option Plan)
      → p.wire w 1 ≡ none
      → plan_at p code w.plans ≡ ok o
      → after_update code w (update_plan_found p w.now code version u w.plans o)
        ≡ expected_plan_update p code version u w o
  unfolding after_update update_plan_found expected_plan_update
  after_plan_found code version u w none sent h = probe_plan code w none sent h
  after_plan_found code version u w (some old) sent h =
      elim (Bool-cases (eq_ℤ old.record_version version)) [
        | inr stale ↦ rw stale (probe_plan code w (some old) sent h)
        | inl same ↦ elim (Result-cases (updated_plan p w.now u old)) [
          | inl (row, e) ↦ rw (same, e) refl
          | inr (x, e) ↦
              rw (same, e) (not_probed code x w (updated_plan-Found laws w.now u old x e))
        ]
      ]

  after_update_read :
      (code : TenantPlan) (version : ℤ) (u : Update) (w : World) (unfit : Option Error)
      (o : Result (Option Plan)) (input : Option PgError) (label : Option Error)
      → p.wire w 1 ≡ none
      → ((e : Error) → unfit ≡ some e → Found e)
      → plan_at p code w.plans ≡ o
      → ((e : Error) → label ≡ some e → Found e)
      → after_update code w (update_read p w.now code version u w.plans unfit o input label)
        ≡ unless_rejected w unfit o input label (expected_plan_update p code version u w)
  unfolding after_update update_read unless_rejected
  after_update_read code version u w (some e) o input label sent k h l =
      not_probed code e w (k e refl)
  after_update_read code version u w none (err e) input label sent k h l =
      not_probed code e w (plan_at-Found laws code w.plans e h)
  after_update_read code version u w none (ok o) (some x) label sent k h l = refl
  after_update_read code version u w none (ok o) none (some e) sent k h l =
      not_probed code e w (l e refl)
  after_update_read code version u w none (ok o) none none sent k h l =
      after_plan_found code version u w o sent h

  -- If the connection fails at neither statement, then the transaction body of Update answers, with
  -- the table as it was, the error of the driver for a number that is out of its column's range, of
  -- the server for a code that is no plan's, for a text or document that it cannot hold, or for a
  -- branding that is no label, whether there is a row or not and whatever its version is. Without
  -- such an error it answers 404 if no row has the code; the 409 that names the row's version if it
  -- is not the expected one; else the row as the assignments, the trigger and the checks leave it,
  -- which replaces the old one, or the error that they raise, with the table as it was.
  pub plan_update_from_tx-eq :
      (code : TenantPlan) (version : ℤ) (u : Update) (w : World)
      → p.wire w 0 ≡ none
      → p.wire w 1 ≡ none
      → plan_update_from_tx p code version u w
        ≡ unless_rejected w
            (encoding_error p u.sets u.args)
            (plan_at p code w.plans)
            (input_error p (values p u.args))
            (label_error p u.sets u.args)
            (expected_plan_update p code version u w)
  unfolding update_plans
  plan_update_from_tx-eq code version u w sent0 sent1 =
      plan_update_from_tx-sent code version u w sent0
      ∙ after_update_read code version u w (encoding_error p u.sets u.args) (plan_at p code w.plans)
          (input_error p (values p u.args)) (label_error p u.sets u.args) sent1
          (encoding_error-Found laws u.sets u.args) refl (label_error-Found laws u.sets u.args)
