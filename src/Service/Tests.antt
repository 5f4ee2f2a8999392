-- ===== src/Service/Tests.antt =====
-- The theorems of the services at concrete inputs.
use iam_catalog_admin.Base.{
  true, false, none, some, pos, [], ◌∷◌, ◌≡◌, refl, arith, keep, if◌then◌else◌, sort_by, insert_by,
  find, any,
}
use iam_catalog_admin.Base.Text.{is_blank, is_space}
use iam_catalog_admin.Json.{num, get}
use iam_catalog_admin.Domain.{Department, Plan, PlanPatch}
use iam_catalog_admin.Exec.{ok}
use iam_catalog_admin.World.{World, Bytes, inc}
use iam_catalog_admin.Samples.{
  pgx, codec, codec-IsCodec, finance, support, starter, world, working, working-IsCache,
  departments_service,
}
use iam_catalog_admin.Postgres.Department.{
  dept_list_from_tx, select_all, update_from_tx, dept_update_from_tx, department_update,
}
use iam_catalog_admin.Postgres.Db.{with_pool}
use iam_catalog_admin.Postgres.Statement.{set_column, placeholder, mentions}
use iam_catalog_admin.Postgres.Schema.{
  department_at, updated_department, triggered, guarded, checked, name_guard, name_trigger,
  touch_department, department_checks, assign_departments, replace_department, update_departments,
  update_found, same_department,
}
use iam_catalog_admin.Postgres.Department as Repository
use iam_catalog_admin.Postgres.PlanSchema.{
  plan_checks, update_plans, updated_plan, plan_at, is_tenant_plan, is_branding_level, assign_plans,
  assign_plan, touch_plan, same_plan, replace_plan,
}
use iam_catalog_admin.Postgres.Plan as PlanRepo
use iam_catalog_admin.Postgres.Plan.{
  plan_list_from_tx, plan_update, plan_update_from_tx, plan_repository,
}
use iam_catalog_admin.Service.Plan as PlanServices
use iam_catalog_admin.Service.Plan.{PlanService, plans_key}
use iam_catalog_admin.Service.Plan.Cached.{plans_list_is_transparent, plan_patch_invalidates}
use iam_catalog_admin.Postgres.Plan.Building.{patched}
use iam_catalog_admin.Service.Codec.{
  marshal_departments, unmarshal_departments, marshal_plans, unmarshal_plans,
}
use iam_catalog_admin.Service.Codec.Roundtrip.{
  unmarshal_departments-marshal_departments, unmarshal_plans-marshal_plans,
}
use iam_catalog_admin.Service.Department as Service
use iam_catalog_admin.Service.Department.{departments_key}
use iam_catalog_admin.Service.Department.Cached.{list_is_transparent, patch_invalidates}
use iam_catalog_admin.Service.Plan.{patch_error, is_known, is_empty_patch, bad_feature}
use iam_catalog_admin.Service.Plan.Validation.{patched-plan_checks}

unmarshal_departments-marshal_departments_example :
    unmarshal_departments codec (marshal_departments codec (finance ∷ support ∷ []))
    ≡ some (finance ∷ support ∷ [])
unmarshal_departments-marshal_departments_example =
    unmarshal_departments-marshal_departments codec-IsCodec (finance ∷ support ∷ [])
      (refl, (refl, tt))

abbrev featured : Plan
featured = record starter { feature_set = ("seats", num (pos 3)) ∷ [] }

unmarshal_plans-marshal_plans_example :
    unmarshal_plans codec (marshal_plans codec (featured ∷ [])) ≡ some (featured ∷ [])
unfolding get
unmarshal_plans-marshal_plans_example =
    unmarshal_plans-marshal_plans codec-IsCodec (featured ∷ []) (
      record {
        workflow = refl;
        tender = refl;
        trial = refl;
        features = (refl, tt);
        version = refl;
      },
      tt,
    )

abbrev stored : World
stored = record world {
  cache = (departments_key, marshal_departments codec (finance ∷ support ∷ [])) ∷ [];
}

fresh :
    (b : Bytes)
    → get departments_key stored.cache ≡ some b
    → unmarshal_departments codec b ≡ some (finance ∷ support ∷ [])
unfolding get
fresh b h =
    let same : marshal_departments codec (finance ∷ support ∷ []) ≡ b = ground (arith, h) in
    rw same at unmarshal_departments-marshal_departments_example

listed : (Repository.list pgx false stored).0 ≡ ok (finance ∷ support ∷ [])
unfolding Repository.list dept_list_from_tx select_all with_pool sort_by insert_by keep
listed = refl

list_is_transparent_example :
    (Service.list codec departments_service true stored).0
    ≡ ok (
        if true
        then keep (λ (d : Department). d.is_active) (finance ∷ support ∷ [])
        else finance ∷ support ∷ [])
list_is_transparent_example =
    list_is_transparent codec departments_service working working-IsCache true stored
      (finance ∷ support ∷ []) refl fresh listed

abbrev renamed : Department
renamed = record support { name = "Help desk"; record_version = pos 2; updated_at = 9 }

renaming :
    (Service.patch pgx departments_service 8 (some "Help desk") none (pos 1) stored).0 ≡ ok renamed
unfolding Service.patch Service.invalidate_cache Repository.update update_from_tx
    dept_update_from_tx department_update with_pool inc department_at updated_department triggered
    guarded checked name_guard name_trigger touch_department department_checks assign_departments
    replace_department update_departments update_found mentions set_column placeholder find any
    same_department is_blank is_space
renaming = refl

patch_invalidates_example :
    get departments_key
      (Service.patch pgx departments_service 8 (some "Help desk") none (pos 1) stored).1.cache
    ≡ none
patch_invalidates_example =
    patch_invalidates pgx departments_service working working-IsCache (λ w. refl) refl 8
      (some "Help desk") none (pos 1) stored renamed renaming

abbrev limits : PlanPatch
limits = record {
  display_name = some "Start";
  workflow_template_limit = some none;
  tender_limit = some (some (pos 12));
  trial_duration_days = some (pos 14);
  sso_enabled = none;
  custom_branding = some "logo";
  feature_set = some (("seats", num (pos 3)) ∷ []);
  record_version = pos 1;
}

limits-valid : patch_error "starter" limits ≡ none
unfolding patch_error is_known is_empty_patch bad_feature is_blank is_space
limits-valid = refl

starter-checks : plan_checks starter ≡ none
unfolding plan_checks
starter-checks = refl

patched-plan_checks_example : plan_checks (patched limits starter) ≡ none
patched-plan_checks_example =
    patched-plan_checks "starter" limits starter limits-valid starter-checks

abbrev plans_service : PlanService
plans_service = record {
  repo = plan_repository pgx;
  cache = some working;
  cache_ttl = pos 60000000000;
}

plans_fresh :
    (b : Bytes) → get plans_key world.cache ≡ some b → unmarshal_plans codec b ≡ some (starter ∷ [])
unfolding get
plans_fresh b h = cc

plans_listed : (PlanRepo.list pgx world).0 ≡ ok (starter ∷ [])
unfolding PlanRepo.list plan_list_from_tx with_pool sort_by insert_by
plans_listed = refl

plans_list_is_transparent_example :
    (PlanServices.list codec plans_service world).0 ≡ ok (starter ∷ [])
plans_list_is_transparent_example =
    plans_list_is_transparent codec plans_service working working-IsCache world (starter ∷ []) refl
      plans_fresh plans_listed

abbrev limited : Plan
limited = record starter {
  display_name = "Start";
  workflow_template_limit = none;
  tender_limit = some (pos 12);
  trial_duration_days = pos 14;
  custom_branding = "logo";
  feature_set = ("seats", num (pos 3)) ∷ [];
}

abbrev limited_row : Plan
limited_row = record limited { record_version = pos 2; updated_at = 9 }

limiting : (PlanServices.patch plans_service "starter" limits world).0 ≡ ok limited_row
unfolding PlanServices.patch patch_error is_known is_empty_patch bad_feature is_blank is_space
    PlanRepo.update plan_update PlanRepo.update_from_tx plan_update_from_tx with_pool inc
    update_plans updated_plan plan_at is_tenant_plan is_branding_level assign_plans assign_plan
    placeholder touch_plan same_plan plan_checks replace_plan set_column find
limiting = refl

plan_patch_invalidates_example :
    get plans_key (PlanServices.patch plans_service "starter" limits world).1.cache ≡ none
plan_patch_invalidates_example =
    plan_patch_invalidates plans_service working working-IsCache (λ w. refl) refl "starter" limits
      world limited_row limiting
