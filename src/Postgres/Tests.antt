-- ===== src/Postgres/Tests.antt =====
-- Tests of the repositories, and their theorems at concrete inputs.
use iam_catalog_admin.Postgres.Pgx.{input_error}
use iam_catalog_admin.Base.{
  true, false, none, some, pos, [], ◌∷◌, ◌≡◌, ◌≢◌, refl, ap, arith, find, any,
}
use iam_catalog_admin.Domain.{Department, PlanPatch}
use iam_catalog_admin.Exec.{ok, err}
use iam_catalog_admin.World.{World}
use iam_catalog_admin.Samples.{pgx, pgx-IsPgx, finance, support, starter, world}
use iam_catalog_admin.Postgres.Statement.{Update, set_column, placeholder, mentions}
use iam_catalog_admin.Postgres.Schema.{
  department_at, updated_department, triggered, guarded, checked, name_guard, name_trigger,
  touch_department, department_checks, assign_departments, replace_department, update_departments,
  update_found, insert_department, insert_checked, violation, same_department,
}
use iam_catalog_admin.Postgres.Department.{department_update, dept_update_from_tx}
use iam_catalog_admin.Postgres.Department.Locking.{
  conflict, expected_update, dept_update_from_tx-eq,
}
use iam_catalog_admin.Postgres.Department.Writers.{second_writer_conflicts}
use iam_catalog_admin.Postgres.PlanSchema.{
  encoding_error, label_error, values, assign_plans, plan_at, is_branding_level,
}
use iam_catalog_admin.Postgres.Plan.{plan_update, plan_update_from_tx}
use iam_catalog_admin.Postgres.Plan.Locking.{
  unless_rejected, expected_plan_update, plan_update_from_tx-eq,
}
use iam_catalog_admin.Postgres.Plan.Building.{patched, assign_plans-plan_update}

schema : Unit {0}
unfolding department_at updated_department triggered guarded checked name_guard name_trigger
    touch_department department_checks assign_departments replace_department update_departments
    update_found insert_department insert_checked mentions set_column placeholder find any
    same_department
schema = tt

abbrev rename : Update
rename = department_update 8 (some "Help desk") none (pos 1)

abbrev renamed : Department
renamed = record support { name = "Help desk"; record_version = pos 2; updated_at = 9 }

abbrev after_rename : World
after_rename = record world { departments = finance ∷ renamed ∷ [] }

first_rename : dept_update_from_tx pgx 8 (pos 1) rename world ≡ (ok renamed, after_rename)
unfolding dept_update_from_tx department_update schema
first_rename = refl

system_rename :
    updated_department 9 (department_update 7 (some "Money") none (pos 1)) finance
    ≡ err (violation "23514" "chk_system_department_name_immutable")
unfolding department_update schema
system_rename = refl

system_retire :
    updated_department 9 (department_update 7 none (some false) (pos 1)) finance
    ≡ err (violation "23514" "chk_system_department_active")
unfolding department_update schema
system_retire = refl

duplicate_code :
    insert_department 9 (record support { id = 11 }) (finance ∷ support ∷ [])
    ≡ (err (violation "23505" "uq_departments_code"), finance ∷ support ∷ [])
unfolding schema
duplicate_code = refl

found_support : department_at 8 world.departments ≡ some support
unfolding schema
found_support = refl

renamed-ne : renamed ≢ support
renamed-ne e = ground (arith, ap (λ (d : Department). d.record_version) e)

second_writer_conflicts_example :
    dept_update_from_tx pgx 8 (pos 1) rename after_rename ≡ (err (conflict (pos 2)), after_rename)
unfolding department_update
second_writer_conflicts_example =
    second_writer_conflicts pgx 8 (pos 1) rename rename world after_rename support renamed refl refl
      refl refl found_support first_rename renamed-ne refl

dept_update_from_tx-eq_example :
    dept_update_from_tx pgx 8 (pos 1) rename world
    ≡ expected_update 8 (pos 1) rename world (department_at 8 world.departments)
unfolding expected_update department_update
dept_update_from_tx-eq_example = dept_update_from_tx-eq pgx 8 (pos 1) rename world refl refl

abbrev unlimited : PlanPatch
unlimited = record {
  display_name = some "Start";
  workflow_template_limit = some none;
  tender_limit = some (some (pos 12));
  trial_duration_days = none;
  sso_enabled = some true;
  custom_branding = some "logo";
  feature_set = none;
  record_version = pos 1;
}

assign_plans-plan_update_example :
    assign_plans pgx
      (plan_update "starter" unlimited).sets
      (plan_update "starter" unlimited).args
      starter
    ≡ ok (patched unlimited starter)
unfolding is_branding_level
assign_plans-plan_update_example =
    assign_plans-plan_update pgx "starter" unlimited starter
      (record { workflow = tt; tender = refl; trial = tt; branding = refl })

plan_update_from_tx-eq_example :
    plan_update_from_tx pgx "starter" (pos 1) (plan_update "starter" unlimited) world
    ≡ unless_rejected world
        (encoding_error pgx
          (plan_update "starter" unlimited).sets
          (plan_update "starter" unlimited).args)
        (plan_at pgx "starter" world.plans)
        (input_error pgx (values pgx (plan_update "starter" unlimited).args))
        (label_error pgx
          (plan_update "starter" unlimited).sets
          (plan_update "starter" unlimited).args)
        (expected_plan_update pgx "starter" (pos 1) (plan_update "starter" unlimited) world)
plan_update_from_tx-eq_example =
    plan_update_from_tx-eq pgx-IsPgx "starter" (pos 1) (plan_update "starter" unlimited) world refl
      refl
