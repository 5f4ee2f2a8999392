-- ===== src/Http/PlanPatching/Overflow.antt =====
-- What CAT-5 answers for a number that its column does not take: the guards stop negative numbers
-- only.
use iam_catalog_admin.Base.{none, some, ℤ, ◌≡◌, ◌≢◌, refl, ◌∙◌, false, true, is_neg}
use iam_catalog_admin.Domain.{PlanPatch, TenantPlan}
use iam_catalog_admin.Domain.Errors.{Error, max_bytes}
use iam_catalog_admin.World.{World}
use iam_catalog_admin.Postgres.Pgx.{Pgx, IsPgx}
use iam_catalog_admin.Postgres.Statement.{set_column, placeholder}
use iam_catalog_admin.Postgres.Undisturbed.{IsUndisturbed}
use iam_catalog_admin.Postgres.PlanSchema.{encoding_error}
use iam_catalog_admin.Postgres.Plan.{plan_update, plan_repository}
use iam_catalog_admin.Postgres.Plan.Locking.{unless_rejected}
use iam_catalog_admin.Service.Plan as Service
use iam_catalog_admin.Service.Plan.{PlanService, is_known, patch_error, is_empty_patch, bad_feature}
use iam_catalog_admin.Http.Context.{Ctx}
use iam_catalog_admin.Http.Outcomes.{database_status, handle_error-wrap_conn_err}
use iam_catalog_admin.Http.Statuses.{status_after}
use iam_catalog_admin.Http.PlanPatching.{sent-status}

-- The patch that sets the trial days alone.
abbrev pub trial_patch : ℤ → ℤ → PlanPatch
trial_patch days version = record {
  display_name = none;
  workflow_template_limit = none;
  tender_limit = none;
  trial_duration_days = some days;
  sso_enabled = none;
  custom_branding = none;
  feature_set = none;
  record_version = version;
}

module _ {p : Pgx} (laws : IsPgx p) (u : IsUndisturbed p) (s : PlanService)
    (repo : s.repo ≡ plan_repository p) (w : World) (code : TenantPlan)
    (known : is_known code ≡ true) (days : ℤ) (natural : is_neg days ≡ false) (e : Error)
    (wide : p.int4_error days ≡ some e) where
  passed : (version : ℤ) → patch_error code (trial_patch days version) ≡ none
  unfolding patch_error is_empty_patch bad_feature
  passed version = rw (known, natural, patch_error) refl

  refused :
      (version : ℤ)
      → encoding_error p
          (plan_update code (trial_patch days version)).sets
          (plan_update code (trial_patch days version)).args
        ≡ some e
  unfolding plan_update set_column encoding_error placeholder
  refused version = rw wide refl

  -- Take the plan service over the repository, with any cache or none, and a number of trial days that
  -- is not negative, but too large for its column. If no connection and no transaction fails, then a
  -- Patch of them, whatever version it expects, is answered with the status of the driver's error,
  -- 500 or 503.
  pub trial-status :
      (c : Ctx) (version : ℤ)
      → e ≢ max_bytes
      → status_after p 200 c (Service.patch s code (trial_patch days version) w).0
        ≡ database_status p e
  unfolding Service.patch unless_rejected
  trial-status c version size =
      rw (passed version, Service.patch)
        (sent-status laws u s repo c code (trial_patch days version) w (passed version)
          ∙ (rw (refused version, unless_rejected)
              (handle_error-wrap_conn_err p c.request e (laws.int4_domain days e wide) size)))
