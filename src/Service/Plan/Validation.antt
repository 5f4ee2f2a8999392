-- ===== src/Service/Plan/Validation.antt =====
-- The guards of PlanService.Patch against the constraints of the table plans.
use iam_catalog_admin.Base.{
  String, Bool, true, false, not, Option, none, some, ℤ, ◌≡◌, refl, sym, is_neg, if◌then◌else◌,
}
use iam_catalog_admin.Base.Text.{is_empty, nonempty_of_blank}
use iam_catalog_admin.Domain.{Plan, PlanPatch, TenantPlan}
use iam_catalog_admin.Domain.Errors.{Error}
use iam_catalog_admin.Service.Plan.{
  patch_error, is_known, is_empty_patch, is_blank_text, is_neg_limit, is_neg_int, is_bad_branding,
  bad_feature, features, features_error,
}
use iam_catalog_admin.Postgres.PlanSchema.{plan_checks, is_neg_limit as Schema_is_neg_limit}
use iam_catalog_admin.Postgres.Schema.{is_positive}
use iam_catalog_admin.Postgres.Plan.Building.{patched, or_old}

-- A patch that every guard lets pass.
pub record IsValid (code : TenantPlan) (p : PlanPatch) : Type 0 where
  pub known : is_known code ≡ true
  pub nonempty : is_empty_patch p ≡ false
  pub name : is_blank_text p.display_name ≡ false
  pub workflow : is_neg_limit p.workflow_template_limit ≡ false
  pub tender : is_neg_limit p.tender_limit ≡ false
  pub trial : is_neg_int p.trial_duration_days ≡ false
  pub branding : is_bad_branding p.custom_branding ≡ false
  pub scalars : bad_feature (features p.feature_set) ≡ none

features_error-none : (o : Option String) → features_error o ≡ none → o ≡ none
features_error-none none e = refl
features_error-none (some k) e = cc

-- if b then some e else rest
passes :
    (b : Bool) (x : Error) (rest : Option Error)
    → (if b then some x else rest) ≡ none
    → (b ≡ false) × (rest ≡ none)
passes true x rest e = cc
passes false x rest e = (refl, e)

passes_not :
    (b : Bool) (x : Error) (rest : Option Error)
    → (if not b then some x else rest) ≡ none
    → (b ≡ true) × (rest ≡ none)
passes_not false x rest e = cc
passes_not true x rest e = (refl, e)

pub patch_error-IsValid :
    (code : TenantPlan) (p : PlanPatch) → patch_error code p ≡ none → IsValid code p
unfolding patch_error
patch_error-IsValid code p e =
    let e1 = passes_not _ _ _ e in
    let e2 = passes _ _ _ e1.1 in
    let e3 = passes _ _ _ e2.1 in
    let e4 = passes _ _ _ e3.1 in
    let e5 = passes _ _ _ e4.1 in
    let e6 = passes _ _ _ e5.1 in
    let e7 = passes _ _ _ e6.1 in
    record {
      known = e1.0;
      nonempty = e2.0;
      name = e3.0;
      workflow = e4.0;
      tender = e5.0;
      trial = e6.0;
      branding = e7.0;
      scalars = features_error-none (bad_feature (features p.feature_set)) e7.1;
    }

-- Conversely these conditions let a patch pass.
pub IsValid-patch_error :
    (code : TenantPlan) (p : PlanPatch) → IsValid code p → patch_error code p ≡ none
unfolding patch_error
IsValid-patch_error code p v =
    rw
      (
        v.known, v.nonempty, v.name, v.workflow, v.tender, v.trial, v.branding, v.scalars,
        patch_error,
      )
      refl

or_old-nonempty :
    (o : Option String) (s : String)
    → is_blank_text o ≡ false
    → is_empty s ≡ false
    → is_empty (or_old o s) ≡ false
or_old-nonempty none s h k = k
or_old-nonempty (some t) s h k = nonempty_of_blank t h

or_old-int :
    (o : Option ℤ) (z : ℤ) → is_neg_int o ≡ false → is_neg z ≡ false → is_neg (or_old o z) ≡ false
or_old-int none z h k = k
or_old-int (some n) z h k = h

or_old-limit :
    (o : Option (Option ℤ)) (z : Option ℤ)
    → is_neg_limit o ≡ false
    → is_neg_int z ≡ false
    → is_neg_int (or_old o z) ≡ false
or_old-limit none z h k = k
or_old-limit (some n) z h k = h

-- What the CHECK constraints of plans ask of a row.
pub record IsPlan (r : Plan) : Type 0 where
  pub name : is_empty r.display_name ≡ false
  pub version : is_positive r.record_version ≡ true
  pub tender : is_neg_int r.tender_limit ≡ false
  pub trial : is_neg r.trial_duration_days ≡ false
  pub workflow : is_neg_int r.workflow_template_limit ≡ false

table_limit : (l : Option ℤ) → Schema_is_neg_limit l ≡ is_neg_int l
table_limit none = refl
table_limit (some z) = refl

last_passes : (b : Bool) (x : Error) → (if b then some x else none) ≡ none → b ≡ false
last_passes b x e = (passes b x none e).0

pub plan_checks-IsPlan : (r : Plan) → plan_checks r ≡ none → IsPlan r
unfolding plan_checks
plan_checks-IsPlan r e =
    let e1 = passes _ _ _ e in
    let e2 = passes_not _ _ _ e1.1 in
    let e3 = passes _ _ _ e2.1 in
    let e4 = passes _ _ _ e3.1 in
    record {
      name = e1.0;
      version = e2.0;
      tender = rw (sym (table_limit r.tender_limit)) e3.0;
      trial = e4.0;
      workflow = rw (sym (table_limit r.workflow_template_limit)) (last_passes _ _ e4.1);
    }

pub IsPlan-plan_checks : (r : Plan) → IsPlan r → plan_checks r ≡ none
unfolding plan_checks
IsPlan-plan_checks r h =
    rw
      (
        h.name,
        h.version,
        table_limit r.tender_limit,
        h.tender,
        h.trial,
        table_limit r.workflow_template_limit,
        h.workflow,
        plan_checks,
      )
      refl

-- If the guards of Patch let a patch pass, and a row satisfies the CHECK constraints of plans, then
-- so does the row with the fields of the patch.
pub patched-plan_checks :
    (code : TenantPlan) (p : PlanPatch) (r : Plan)
    → patch_error code p ≡ none
    → plan_checks r ≡ none
    → plan_checks (patched p r) ≡ none
unfolding patched
patched-plan_checks code p r passed h =
    let v = patch_error-IsValid code p passed in
    let old = plan_checks-IsPlan r h in
    IsPlan-plan_checks (patched p r) (record {
      name = or_old-nonempty p.display_name r.display_name v.name old.name;
      version = old.version;
      tender = or_old-limit p.tender_limit r.tender_limit v.tender old.tender;
      trial = or_old-int p.trial_duration_days r.trial_duration_days v.trial old.trial;
      workflow =
          or_old-limit p.workflow_template_limit r.workflow_template_limit v.workflow old.workflow;
    })
