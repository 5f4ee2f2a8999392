-- ===== src/Service/Plan/Accepted.antt =====
-- A patch that the guards of PlanService.Patch let pass is one that the table takes: the statement
-- has a SET list, its assignments fit, and the row that it leaves satisfies the checks.
use iam_catalog_admin.Json.{Map}
use iam_catalog_admin.Base.{
  ℕ, suc, String, Bool, true, false, ◌||◌, ◌≤◌, Option, none, some, List, [], ◌∷◌, ◌++◌, ◌≡◌, ◌≢◌,
  refl, inl, inr, arith, length, is_some, Bool-cases, Option-cases, find, ◌==◌,
}
use iam_catalog_admin.Domain.{Plan, PlanPatch, TenantPlan}
use iam_catalog_admin.Exec.{ok}
use iam_catalog_admin.Postgres.Pgx.{Pgx}
use iam_catalog_admin.Postgres.Statement.{
  Update, Arg, set_column, text, bool, int, nullable_int, jsonb,
}
use iam_catalog_admin.Postgres.Schema.{next_version}
use iam_catalog_admin.Postgres.Schema.Rows.{next_version-positive}
use iam_catalog_admin.Postgres.PlanSchema.{
  assign_plans, plan_checks, updated_plan, touch_plan, same_plan, is_tenant_plan, is_branding_level,
}
use iam_catalog_admin.Postgres.PlanSchema.Invariant.{IsPlanTable, IsPlanRow}
use iam_catalog_admin.Postgres.Plan.{plan_update, set_if}
use iam_catalog_admin.Postgres.Plan.Building.{
  patched, FitsInt, FitsLimit, IsBranding, assign_plans-plan_update,
}
use iam_catalog_admin.Service.Plan.{patch_error, is_known, is_empty_patch, is_bad_branding}
use iam_catalog_admin.Service.Plan.Validation.{
  patch_error-IsValid, patched-plan_checks, plan_checks-IsPlan, IsPlan-plan_checks,
}

-- If the flag is set, then the SET list is not empty.
abbrev Sets : Bool → Update → Type 0
Sets b u = b ≡ true → 1 ≤ length u.sets

length-append_one : {A : Type 0} (xs : List A) (x : A) → length (xs ++ x ∷ []) ≡ suc (length xs)
length-append_one [] x = refl
length-append_one (y ∷ xs) x = omega (arith, length-append_one xs x)

set_if-Sets :
    {A : Type 0} (column : String) (arg : A → Arg) (o : Option A) (b : Bool) (u : Update)
    → Sets b u
    → Sets (b || is_some o) (set_if column arg o u)
unfolding set_column
set_if-Sets column arg none b u h e = h (ground (arith, e))
set_if-Sets column arg (some a) b u h e =
    omega (arith, length-append_one u.sets (column, length (u.args ++ arg a ∷ [])))

-- The patch sets a field.
abbrev sets_a_field : PlanPatch → Bool
sets_a_field p =
    let b1 = false || is_some p.display_name in
    let b2 = b1 || is_some p.workflow_template_limit in
    let b3 = b2 || is_some p.tender_limit in
    let b4 = b3 || is_some p.trial_duration_days in
    let b5 = b4 || is_some p.sso_enabled in
    let b6 = b5 || is_some p.custom_branding in b6 || is_some p.feature_set

is_empty_patch-sets : (p : PlanPatch) → is_empty_patch p ≡ false → sets_a_field p ≡ true
unfolding is_empty_patch
is_empty_patch-sets p h = ground (arith, h)

pub plan_update-Sets :
    (code : TenantPlan) (p : PlanPatch)
    → is_empty_patch p ≡ false
    → 1 ≤ length (plan_update code p).sets
unfolding plan_update
plan_update-Sets code p given =
    set_if-Sets "feature_set" jsonb p.feature_set _ _
      (set_if-Sets "custom_branding" text p.custom_branding _ _ (
        set_if-Sets "sso_enabled" bool p.sso_enabled _ _ (
          set_if-Sets "trial_duration_days" int p.trial_duration_days _ _ (
            set_if-Sets "tender_limit" nullable_int p.tender_limit _ _ (
              set_if-Sets "workflow_template_limit" nullable_int p.workflow_template_limit _ _
                (set_if-Sets "display_name" text p.display_name false _ (λ e. cc)))))))
      (is_empty_patch-sets p given)

pub is_bad_branding-IsBranding : (o : Option String) → is_bad_branding o ≡ false → IsBranding o
unfolding is_branding_level
is_bad_branding-IsBranding none h = tt
is_bad_branding-IsBranding (some b) h = ground (arith, h)

abbrev pub HoldsText : Pgx → Option String → Type 0
HoldsText p none = Unit
HoldsText p (some s) = p.text_error s ≡ none

abbrev pub HoldsMap : Pgx → Option Map → Type 0
HoldsMap p none = Unit
HoldsMap p (some m) = p.jsonb_error m ≡ none

-- The numbers of a patch fit their columns, and the server can hold its texts.
pub record FitsColumns (p : Pgx) (patch : PlanPatch) : Type 0 where
  pub workflow : FitsLimit p patch.workflow_template_limit
  pub tender : FitsLimit p patch.tender_limit
  pub trial : FitsInt p patch.trial_duration_days
  pub display : HoldsText p patch.display_name
  pub branding : HoldsText p patch.custom_branding
  pub features : HoldsMap p patch.feature_set

pub known-label : (code : TenantPlan) → is_known code ≡ is_tenant_plan code
unfolding is_known is_tenant_plan
known-label code = refl

module _ (p : Pgx) where
  pub plan_at-IsPlanRow :
      (code : TenantPlan) (rows : List Plan) {old : Plan}
      → IsPlanTable rows
      → find (λ r. r.code == code) rows ≡ some old
      → IsPlanRow old
  unfolding find
  plan_at-IsPlanRow code [] t h = cc
  plan_at-IsPlanRow code (r ∷ rows) {old} t h = elim (Bool-cases (r.code == code)) [
    | inl hit ↦ let same : r ≡ old = ground (arith, hit, h) in rw same at t.0
    | inr other ↦ plan_at-IsPlanRow code rows {old = old} t.2 (ground (arith, other, h))
  ]

  updated_plan-ok :
      (now : ℕ) (u : Update) (old new : Plan)
      → assign_plans p u.sets u.args old ≡ ok new
      → old.record_version ≡ new.record_version
      → plan_checks new ≡ none
      → next_version old.record_version ≢ none
      → (row : Plan) × (updated_plan p now u old ≡ ok row)
  unfolding updated_plan touch_plan
  updated_plan-ok now u old new made same checks room = elim (Bool-cases (same_plan p old new)) [
    | inl equal ↦ (new, rw (made, equal, checks, updated_plan, touch_plan) refl)
    | inr differs ↦ elim (Option-cases (next_version old.record_version)) [
      | inl full ↦ absurd (room full)
      | inr (v, next) ↦
          let row = record new { record_version = v; updated_at = now } in
          let valid = plan_checks-IsPlan new checks in
          let positive = next_version-positive old.record_version v (rw same valid.version) next in
          let fine = IsPlan-plan_checks row (record {
            name = valid.name;
            version = positive;
            tender = valid.tender;
            trial = valid.trial;
            workflow = valid.workflow;
          }) in
          (row, rw (made, differs, next, fine, updated_plan, touch_plan) refl)
    ]
  ]

  -- A patch that the guards let pass leaves a row.
  pub updated_plan-accepted :
      (now : ℕ) (code : TenantPlan) (patch : PlanPatch) (old : Plan)
      → FitsColumns p patch
      → patch_error code patch ≡ none
      → plan_checks old ≡ none
      → next_version old.record_version ≢ none
      → (row : Plan) × (updated_plan p now (plan_update code patch) old ≡ ok row)
  unfolding patched
  updated_plan-accepted now code patch old fits passed checks room =
      let valid = patch_error-IsValid code patch passed in
      let made = assign_plans-plan_update p code patch old (record {
        workflow = fits.workflow;
        tender = fits.tender;
        trial = fits.trial;
        branding = is_bad_branding-IsBranding patch.custom_branding valid.branding;
      }) in
      updated_plan-ok now (plan_update code patch) old (patched patch old) made refl
        (patched-plan_checks code patch old passed checks) room
