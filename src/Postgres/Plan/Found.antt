-- ===== src/Postgres/Plan/Found.antt =====
-- No error of an UPDATE of plans is pgx.ErrNoRows: only a statement that meets no row has that one.
use iam_catalog_admin.Base.{
  ℕ, String, Option, none, some, ℤ, List, [], ◌∷◌, ◌≡◌, ◌≢◌, refl, ◌∙◌, inl, inr, arith,
  Option-cases, Bool-cases, ◌==◌,
}
use iam_catalog_admin.Domain.{Plan, TenantPlan}
use iam_catalog_admin.Domain.Errors.{Error, no_rows}
use iam_catalog_admin.Exec.{err, Result-cases}
use iam_catalog_admin.Postgres.Pgx.{Pgx, IsPgx}
use iam_catalog_admin.Postgres.Statement.{
  Update, Arg, text, bool, int, nullable_int, jsonb, uuid, placeholder,
}
use iam_catalog_admin.Postgres.PlanSchema.{
  column_error, encoding_error, label_error, unlabelled, assign_plan, assign_plans, unless_error,
  limit_error, touch_plan, plan_checks, updated_plan, plan_at, is_tenant_plan,
}
use iam_catalog_admin.Postgres.Schema.{next_version}

-- The errors of a statement that are not pgx.ErrNoRows.
abbrev pub Found : Error → Type 0
Found e = e ≢ no_rows

module _ {p : Pgx} (laws : IsPgx p) where
  unless_error-Found :
      (o : Option Error) (r : Plan) (e : Error)
      → ((x : Error) → o ≡ some x → Found x)
      → unless_error p o r ≡ err e
      → Found e
  unless_error-Found none r e k h = cc
  unless_error-Found (some x) r e k h =
      let same : x ≡ e = cc in let found : Found x = k x refl in rw same at found

  limit_error-Found : (l : Option ℤ) (x : Error) → limit_error p l ≡ some x → Found x
  limit_error-Found none x h = cc
  limit_error-Found (some z) x h = laws.int4_found z x h

  assign_plan-Found :
      (column : String) (v : Option Arg) (r : Plan) (e : Error)
      → assign_plan p column v r ≡ err e
      → Found e
  unfolding assign_plan
  assign_plan-Found column (some (int z)) r e h =
      elim (Bool-cases (column == "trial_duration_days")) [
        | inl is ↦ unless_error-Found _ _ e (laws.int4_found z) (rw (is, assign_plan) at h)
        | inr elsewhere ↦ λ n. ground (arith, elsewhere, h)
      ]
  assign_plan-Found column (some (nullable_int l)) r e h =
      elim (Bool-cases (column == "workflow_template_limit")) [
        | inl is ↦ unless_error-Found _ _ e (limit_error-Found l) (rw (is, assign_plan) at h)
        | inr no_workflow ↦ elim (Bool-cases (column == "tender_limit")) [
          | inl is ↦
              unless_error-Found _ _ e (limit_error-Found l)
                (rw (no_workflow, is, assign_plan) at h)
          | inr no_tender ↦ λ n. ground (arith, no_workflow, no_tender, h)
        ]
      ]
  assign_plan-Found column (some (text s)) r e h = λ n. ground arith
  assign_plan-Found column (some (bool b)) r e h = λ n. ground arith
  assign_plan-Found column (some (jsonb m)) r e h = λ n. ground arith
  assign_plan-Found column (some (uuid m)) r e h = λ n. ground arith
  assign_plan-Found column none r e h = λ n. ground arith

  assign_plans-Found :
      (sets : List (String × ℕ)) (args : List Arg) (r : Plan) (e : Error)
      → assign_plans p sets args r ≡ err e
      → Found e
  unfolding assign_plans
  assign_plans-Found [] args r e h = cc
  assign_plans-Found ((column, n) ∷ sets) args r e h =
      elim (Result-cases (assign_plan p column (placeholder args n) r)) [
        | inl (r1, made) ↦ assign_plans-Found sets args r1 e (rw (made, assign_plans) at h)
        | inr (x, failed) ↦
            assign_plan-Found column (placeholder args n) r e (ground (arith, failed, h))
      ]

  touch_plan-Found :
      (now : ℕ) (old new : Plan) (e : Error) → touch_plan p now old new ≡ err e → Found e
  unfolding touch_plan
  touch_plan-Found now old new e h n = elim (Option-cases (next_version old.record_version)) [
    | inl full ↦ ground arith
    | inr (v, next) ↦ ground arith
  ]

  plan_checks-Found : (r : Plan) (e : Error) → plan_checks r ≡ some e → Found e
  unfolding plan_checks
  plan_checks-Found r e h n = ground arith

  pub updated_plan-Found :
      (now : ℕ) (u : Update) (old : Plan) (e : Error) → updated_plan p now u old ≡ err e → Found e
  unfolding updated_plan
  updated_plan-Found now u old e h = elim (Result-cases (assign_plans p u.sets u.args old)) [
    | inr (x, failed) ↦ assign_plans-Found u.sets u.args old e (ground (arith, failed, h))
    | inl (new, made) ↦ elim (Result-cases (touch_plan p now old new)) [
      | inr (x, failed) ↦ touch_plan-Found now old new e (ground (arith, made, failed, h))
      | inl (row, touched) ↦ elim (Option-cases (plan_checks row)) [
        | inl pass ↦ λ n. ground (arith, made, touched, pass, h)
        | inr (x, raised) ↦ plan_checks-Found row e (ground (arith, made, touched, raised, h))
      ]
    ]
  ]

  pub plan_at-Found :
      (code : TenantPlan) (rows : List Plan) (e : Error) → plan_at p code rows ≡ err e → Found e
  unfolding plan_at
  plan_at-Found code rows e h n = elim (Bool-cases (is_tenant_plan code)) [
    | inl known ↦ ground arith
    | inr unknown ↦ ground arith
  ]

  column_error-Found : (v : Option Arg) (e : Error) → column_error p v ≡ some e → Found e
  column_error-Found (some (int z)) e h = laws.int4_found z e h
  column_error-Found (some (nullable_int l)) e h = limit_error-Found l e h
  column_error-Found (some (text s)) e h = cc
  column_error-Found (some (bool b)) e h = cc
  column_error-Found (some (jsonb m)) e h = cc
  column_error-Found (some (uuid m)) e h = cc
  column_error-Found none e h = cc

  pub encoding_error-Found :
      (sets : List (String × ℕ)) (args : List Arg) (e : Error)
      → encoding_error p sets args ≡ some e
      → Found e
  unfolding encoding_error
  encoding_error-Found [] args e h = cc
  encoding_error-Found ((column, n) ∷ sets) args e h =
      elim (Option-cases (column_error p (placeholder args n))) [
        | inl fits ↦ encoding_error-Found sets args e (rw (fits, encoding_error) at h)
        | inr (x, wide) ↦
            column_error-Found (placeholder args n) e (wide ∙ (rw (wide, encoding_error) at h))
      ]

  unlabelled-Found :
      (column : String) (v : Option Arg) (e : Error) → unlabelled p column v ≡ some e → Found e
  unlabelled-Found column (some (text s)) e h = λ n. ground arith
  unlabelled-Found column (some (int z)) e h = cc
  unlabelled-Found column (some (nullable_int l)) e h = cc
  unlabelled-Found column (some (bool b)) e h = cc
  unlabelled-Found column (some (jsonb m)) e h = cc
  unlabelled-Found column (some (uuid m)) e h = cc
  unlabelled-Found column none e h = cc

  pub label_error-Found :
      (sets : List (String × ℕ)) (args : List Arg) (e : Error)
      → label_error p sets args ≡ some e
      → Found e
  unfolding label_error
  label_error-Found [] args e h = cc
  label_error-Found ((column, n) ∷ sets) args e h =
      elim (Option-cases (unlabelled p column (placeholder args n))) [
        | inl fits ↦ label_error-Found sets args e (rw (fits, label_error) at h)
        | inr (x, bad) ↦
            unlabelled-Found column (placeholder args n) e (bad ∙ (rw (bad, label_error) at h))
      ]
