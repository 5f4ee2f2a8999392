-- ===== src/Postgres/PlanSchema.antt =====
-- The table plans of migrations/000001_init_schema.up.sql, and what UPDATE does to it.
pub mod Invariant
pub mod Rows
pub mod Updates
use iam_catalog_admin.Base.{
  ℕ, String, Bool, true, false, not, ◌&&◌, ◌||◌, Option, none, some, ℤ, List, [], ◌∷◌, map, find,
  eqb, eq_ℤ, is_neg, ◌==◌, if◌then◌else◌,
}
use iam_catalog_admin.Base.Text.{is_empty}
use iam_catalog_admin.Domain.{
  Plan, Time, TenantPlan, plan_starter, plan_pro, plan_enterprise, branding_none, branding_logo,
}
use iam_catalog_admin.Domain.Errors.{PgError, pg, Error}
use iam_catalog_admin.Exec.{Result, ok, err}
use iam_catalog_admin.Postgres.Pgx.{input_error, Pgx}
use iam_catalog_admin.Postgres.Statement.{
  Update, Arg, text, bool, int, nullable_int, jsonb, placeholder,
}
use iam_catalog_admin.Postgres.Schema.{violation, eq_bool, is_positive, next_version}

-- The labels of the ENUM types tenant_plan and branding_level.
unfoldable pub is_tenant_plan : String → Bool
is_tenant_plan s = s == plan_starter || s == plan_pro || s == plan_enterprise

unfoldable pub is_branding_level : String → Bool
is_branding_level s = s == branding_none || s == branding_logo

abbrev pub is_neg_limit : Option ℤ → Bool
is_neg_limit none = false
is_neg_limit (some z) = is_neg z

-- The CHECK constraints of plans.
unfoldable pub plan_checks : Plan → Option Error
plan_checks r =
    if is_empty r.display_name
    then some (violation "23514" "plans_display_name_not_empty")
    else if not (is_positive r.record_version)
    then some (violation "23514" "plans_record_version_positive")
    else if is_neg_limit r.tender_limit
    then some (violation "23514" "plans_tender_limit_nonneg")
    else if is_neg r.trial_duration_days
    then some (violation "23514" "plans_trial_days_nonneg")
    else if is_neg_limit r.workflow_template_limit
    then some (violation "23514" "plans_wf_limit_nonneg")
    else none

abbrev eq_limit : Option ℤ → Option ℤ → Bool
eq_limit none none = true
eq_limit (some a) (some b) = eq_ℤ a b
eq_limit _ _ = false

module _ (p : Pgx) where
  abbrev pub limit_error : Option ℤ → Option Error
  limit_error none = none
  limit_error (some z) = p.int4_error z

  abbrev pub unless_error : Option Error → Plan → Result Plan
  unless_error none r = ok r
  unless_error (some e) r = err e

  -- One assignment of a SET list, of a value that the server could read (see `update_read`).
  unfoldable pub assign_plan : String → Option Arg → Plan → Result Plan
  unfolding is_branding_level
  assign_plan column (some (text s)) r =
      if column == "display_name"
      then ok (record r { display_name = s })
      else if column == "custom_branding"
      then if is_branding_level s
        then ok (record r { custom_branding = s })
        else err (violation "22P02" "")
      else err (violation "42804" "")
  assign_plan column (some (bool b)) r =
      if column == "sso_enabled"
      then ok (record r { sso_enabled = b })
      else err (violation "42804" "")
  assign_plan column (some (int z)) r =
      if column == "trial_duration_days"
      then unless_error (p.int4_error z) (record r { trial_duration_days = z })
      else err (violation "42804" "")
  assign_plan column (some (nullable_int l)) r =
      if column == "workflow_template_limit"
      then unless_error (limit_error l) (record r { workflow_template_limit = l })
      else if column == "tender_limit"
      then unless_error (limit_error l) (record r { tender_limit = l })
      else err (violation "42804" "")
  assign_plan column (some (jsonb m)) r =
      if column == "feature_set"
      then ok (record r { feature_set = m })
      else err (violation "42804" "")
  assign_plan column _ r = err (violation "42804" "")

  unfoldable pub assign_plans : List (String × ℕ) → List Arg → Plan → Result Plan
  assign_plans [] args r = ok r
  assign_plans ((column, n) ∷ sets) args r = elim (assign_plan column (placeholder args n) r) [
    | err e ↦ err e
    | ok r' ↦ assign_plans sets args r'
  ]

  unfoldable pub same_plan : Plan → Plan → Bool
  same_plan a b =
      a.code == b.code
      && a.display_name == b.display_name
      && eq_limit a.workflow_template_limit b.workflow_template_limit
      && eq_limit a.tender_limit b.tender_limit
      && eq_ℤ a.trial_duration_days b.trial_duration_days
      && eq_bool a.sso_enabled b.sso_enabled
      && a.custom_branding == b.custom_branding
      && p.jsonb_eq a.feature_set b.feature_set
      && eq_ℤ a.record_version b.record_version
      && eqb a.created_at b.created_at
      && eqb a.updated_at b.updated_at

  -- trg_touch_plans, with its WHEN condition
  unfoldable pub touch_plan : Time → Plan → Plan → Result Plan
  unfolding same_plan
  touch_plan now old new =
      if same_plan old new then ok new else elim (next_version old.record_version) [
        | none ↦ err (violation "22003" "")
        | some v ↦ ok (record new { record_version = v; updated_at = now })
      ]

  unfoldable pub updated_plan : Time → Update → Plan → Result Plan
  updated_plan now u old = elim (assign_plans u.sets u.args old) [
    | err e ↦ err e
    | ok new ↦ elim (touch_plan now old new) [
      | err e ↦ err e
      | ok row ↦ elim (plan_checks row) [ some e ↦ err e | none ↦ ok row ]
    ]
  ]

  unfoldable pub replace_plan : TenantPlan → Plan → List Plan → List Plan
  replace_plan code row = map (λ r. if r.code == code then row else r)

  -- SELECT … WHERE code = $1; a code that is no label of the type is an error.
  unfoldable pub plan_at : TenantPlan → List Plan → Result (Option Plan)
  unfolding is_tenant_plan
  plan_at code rows =
      if is_tenant_plan code
      then ok (find (λ r. r.code == code) rows)
      else err (violation "22P02" "")

  -- The driver's error for a value that does not go into its column's type: the columns with numbers
  -- that the program sets are all of type int.
  abbrev pub column_error : Option Arg → Option Error
  column_error (some (int z)) = p.int4_error z
  column_error (some (nullable_int l)) = limit_error l
  column_error _ = none

  -- The first of them in a SET list.
  unfoldable pub encoding_error : List (String × ℕ) → List Arg → Option Error
  encoding_error [] args = none
  encoding_error ((column, n) ∷ sets) args = elim (column_error (placeholder args n)) [
    | some e ↦ some e
    | none ↦ encoding_error sets args
  ]

  abbrev pub unlabelled : String → Option Arg → Option Error
  unlabelled column (some (text s)) =
      if column == "custom_branding" && not (is_branding_level s)
      then some (violation "22P02" "")
      else none
  unlabelled column _ = none

  -- The server's error for a custom_branding that is no label of its type.
  unfoldable pub label_error : List (String × ℕ) → List Arg → Option Error
  unfolding is_branding_level
  label_error [] args = none
  label_error ((column, n) ∷ sets) args = elim (unlabelled column (placeholder args n)) [
    | some e ↦ some e
    | none ↦ label_error sets args
  ]

  -- The arguments after $1 and $2.
  abbrev pub values : List Arg → List Arg
  values (code ∷ version ∷ args) = args
  values _ = []

  -- The row that is found and has the expected version is updated.
  unfoldable pub update_plan_found :
      Time → TenantPlan → ℤ → Update → List Plan → Option Plan → Result (Option Plan) × List Plan
  update_plan_found now code version u rows none = (ok none, rows)
  update_plan_found now code version u rows (some old) =
      if eq_ℤ old.record_version version
      then elim (updated_plan now u old) [
        | err e ↦ (err e, rows)
        | ok row ↦ (ok (some row), replace_plan code row rows)
      ]
      else (ok none, rows)

  -- The driver encodes the arguments, and the server reads $1, the other texts and the documents,
  -- and then the label of custom_branding, all before a row is looked at.
  unfoldable pub update_read :
      Time
      → TenantPlan
      → ℤ
      → Update
      → List Plan
      → Option Error
      → Result (Option Plan)
      → Option PgError
      → Option Error
      → Result (Option Plan) × List Plan
  unfolding update_plan_found
  update_read now code version u rows (some e) found input label = (err e, rows)
  update_read now code version u rows none (err e) input label = (err e, rows)
  update_read now code version u rows none (ok o) (some x) label = (err (pg x), rows)
  update_read now code version u rows none (ok o) none (some e) = (err e, rows)
  update_read now code version u rows none (ok o) none none =
      update_plan_found now code version u rows o

  -- UPDATE plans SET … WHERE code = $1 AND record_version = $2 RETURNING …
  unfoldable pub update_plans :
      Time → TenantPlan → ℤ → Update → List Plan → Result (Option Plan) × List Plan
  unfolding update_read encoding_error label_error plan_at
  update_plans now code version u rows =
      update_read now code version u rows (encoding_error u.sets u.args) (plan_at code rows)
        (input_error p (values u.args)) (label_error u.sets u.args)
