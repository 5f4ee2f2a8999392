-- ===== src/Http/PlanStatusTests.antt =====
-- The statuses of CAT-5 at concrete inputs.
use iam_catalog_admin.Base.{
  Option, some, none, pos, [], ◌∷◌, ◌≡◌, ◌≢◌, refl, ap, ◌∙◌, arith, find, ◌==◌,
}
use iam_catalog_admin.Json.{num, obj, of_members}
use iam_catalog_admin.Domain.{Plan, PlanPatch, TenantPlan}
use iam_catalog_admin.Domain.Errors.{other}
use iam_catalog_admin.Exec.{Result, ok}
use iam_catalog_admin.Samples.{
  pgx, pgx-IsPgx, pgx-IsUndisturbed, codec, request, world, world-IsPlanTable, services,
}
use iam_catalog_admin.Postgres.Schema.{next_version}
use iam_catalog_admin.Service.Plan as Service
use iam_catalog_admin.Service.Plan.{PlanService, is_known}
use iam_catalog_admin.Service.Plan.Accepted.{FitsColumns}
use iam_catalog_admin.Http.Context.{Ctx, document}
use iam_catalog_admin.Http.Bind.{PlanPatchBody, bind_plan_patch}
use iam_catalog_admin.Http.Plans
use iam_catalog_admin.Http.Plans.{plan_patch, parse_limit}
use iam_catalog_admin.Http.Outcomes.{database_status}
use iam_catalog_admin.Http.Statuses.{gate_status, status_after}
use iam_catalog_admin.Http.StatusTests.{operator}
use iam_catalog_admin.Http.PlanPatching.Answers as PlanAnswers
use iam_catalog_admin.Http.PlanPatching.Answers.{plan_patch-status}
use iam_catalog_admin.Http.PlanPatching.Overflow.{trial_patch, trial-status}

-- A request of an operator for the starter plan.
abbrev repricing : Ctx
repricing = record {
  request = record (request "PATCH" "/api/v1/operator/plans/:code" "starter") {
    body =
        document (
          obj (of_members (("tender_limit", num (pos 20)) ∷ ("record_version", num (pos 1)) ∷ [])));
  };
  identity = some operator;
}

abbrev plan_service : PlanService
plan_service = services.plans

plan_room :
    (code : TenantPlan) (old : Plan)
    → find (λ r. r.code == code) world.plans ≡ some old
    → next_version old.record_version ≢ none
unfolding find
plan_room code old h e = ground arith

abbrev repriced : PlanPatch
repriced = record {
  display_name = none;
  workflow_template_limit = none;
  tender_limit = some (some (pos 20));
  trial_duration_days = none;
  sso_enabled = none;
  custom_branding = none;
  feature_set = none;
  record_version = pos 1;
}

abbrev made : Option PlanPatchBody → Option (Result PlanPatch)
made none = none
made (some b) = some (plan_patch b)

repriced-FitsColumns :
    (body : PlanPatchBody) (patch : PlanPatch)
    → bind_plan_patch repricing.request.body ≡ some body
    → plan_patch body ≡ ok patch
    → FitsColumns pgx patch
unfolding bind_plan_patch plan_patch parse_limit
repriced-FitsColumns body patch bound is =
    let fits : FitsColumns pgx repriced = record {
      workflow = tt;
      tender = refl;
      trial = tt;
      display = tt;
      branding = tt;
      features = tt;
    } in
    let good : Result PlanPatch = ok repriced in
    let same : some good ≡ some (ok patch) = ap made bound ∙ ap some is in
    let equal : repriced ≡ patch = cc in rw equal at fits

plan_patch-status_example :
    (Plans.patch pgx codec plan_service repricing world).0.status
    ≡ gate_status repricing.identity
        (PlanAnswers.body_status "starter" world (bind_plan_patch repricing.request.body))
plan_patch-status_example =
    plan_patch-status pgx-IsPgx pgx-IsUndisturbed codec plan_service refl world world-IsPlanTable
      plan_room repricing repriced-FitsColumns

trial-status_example :
    status_after pgx 200 repricing
      (Service.patch plan_service "starter" (trial_patch (pos 2147483648) (pos 1)) world).0
    ≡ database_status pgx (other "greater than maximum value for int4")
unfolding is_known find
trial-status_example =
    trial-status pgx-IsPgx pgx-IsUndisturbed plan_service refl world "starter" refl (pos 2147483648)
      refl (other "greater than maximum value for int4") refl repricing (pos 1) (λ e. cc)
