-- ===== src/Http/PlanPatching.antt =====
-- The statuses of CAT-5: what Patch of the plan service comes to, through guards, repository and
-- table.
pub mod Answers
pub mod Overflow
use iam_catalog_admin.Service.Plan.Taken.{plan_update-IsTaken}
use iam_catalog_admin.Base.{
  ℕ, suc, String, Bool, true, false, not, ◌≤◌, Option, none, some, ℤ, List, [], ◌∷◌, ◌≡◌, ◌≢◌, refl,
  ◌∙◌, ap, ◌⊎◌, inl, inr, arith, length, find, Bool-cases, Option-cases, eq_ℤ, is_some, ◌==◌,
  if◌then◌else◌,
}
use iam_catalog_admin.Json.{str}
use iam_catalog_admin.Domain.{Plan, PlanPatch, TenantPlan}
use iam_catalog_admin.Domain.Errors.{
  Error, DomainError, domain, new_error, with_details, err_plan_not_found,
  err_invalid_feature_value,
}
use iam_catalog_admin.Exec.{Result, ok, err, Exec, on, pure, fail, ◌>>=◌}
use iam_catalog_admin.World.{World, inc, writes_total}
use iam_catalog_admin.Port.{Cache}
use iam_catalog_admin.Postgres.Pgx.{input_error, Pgx, IsPgx}
use iam_catalog_admin.Postgres.Statement.{Update}
use iam_catalog_admin.Postgres.Db.{with_pool, wrap_result, wrap_conn_err}
use iam_catalog_admin.Postgres.Undisturbed.{IsUndisturbed, with_pool-result}
use iam_catalog_admin.Postgres.Schema.{next_version}
use iam_catalog_admin.Postgres.PlanSchema.{
  encoding_error, label_error, values, plan_at, plan_checks, updated_plan, is_tenant_plan,
}
use iam_catalog_admin.Postgres.PlanSchema.Invariant.{IsPlanTable}
use iam_catalog_admin.Postgres.Plan as Repository
use iam_catalog_admin.Postgres.Plan.{
  plan_update, plan_update_from_tx, update_from_tx, update_sets, count_conflict, plan_repository,
}
use iam_catalog_admin.Postgres.Plan.Locking.{
  unless_rejected, expected_plan_update, plan_conflict, plan_not_found, plan_update_from_tx-eq,
}
use iam_catalog_admin.Service.Department.Cached.{advisory-ok}
use iam_catalog_admin.Service.Plan as Service
use iam_catalog_admin.Service.Plan.{
  PlanService, patch_error, patch_unless, is_known, is_empty_patch, is_blank_text, is_neg_limit,
  is_neg_int, is_bad_branding, bad_feature, features, features_error, invalidate, plans_key,
}
use iam_catalog_admin.Service.Plan.Validation.{IsValid, patch_error-IsValid}
use iam_catalog_admin.Service.Plan.Accepted.{
  FitsColumns, plan_update-Sets, known-label, plan_at-IsPlanRow, updated_plan-accepted,
}
use iam_catalog_admin.Http.Context.{Ctx}
use iam_catalog_admin.Http.Respond.{handle_error, domain_error_status}
use iam_catalog_admin.Http.PlanGuards.{Is400, patch_error-Is400, unknown_error}
use iam_catalog_admin.Http.Statuses.{map_error, status_after}

-- 404 without the row, 409 at another version, else 200.
abbrev pub row_status : PlanPatch → Option Plan → ℕ
row_status patch none = 404
row_status patch (some old) = if eq_ℤ old.record_version patch.record_version then 200 else 409

-- 404 for a code that is no plan's, 400 for a patch that a guard stops.
abbrev pub guarded_status : TenantPlan → PlanPatch → List Plan → ℕ
guarded_status code patch rows =
    if is_known code
    then if is_some (patch_error code patch)
      then 400
      else row_status patch (find (λ r. r.code == code) rows)
    else 404

module _ {p : Pgx} (laws : IsPgx p) (u : IsUndisturbed p) where
  counted :
      (x : Result Plan × World)
      → (on (λ r. inc (writes_total "plans" "update") >>= λ _. pure r) (count_conflict p) x).0 ≡ x.0
  unfolding inc
  counted (ok r, w) = refl
  counted (err e, w) = ground arith

  update_sets-result :
      (code : TenantPlan) (version : ℤ) (up : Update) (w : World) (sets : List (String × ℕ))
      → 1 ≤ length sets
      → (update_sets p code version up sets w).0
        ≡ wrap_result p
            (unless_rejected w
              (encoding_error p up.sets up.args)
              (plan_at p code w.plans)
              (input_error p (values p up.args))
              (label_error p up.sets up.args)
              (expected_plan_update p code version up w)).0
  unfolding update_from_tx
  update_sets-result code version up w [] h = absurd (omega (arith, h))
  update_sets-result code version up w (s ∷ sets) h =
      with_pool-result u (update_from_tx p code version up) w
      ∙ ap (wrap_result p) (
          counted (plan_update_from_tx p code version up w)
          ∙ ap (λ (x : Result Plan × World). x.0)
              (plan_update_from_tx-eq laws code version up w (u.sent w 0) (u.sent w 1)))

  -- A row that the patch may meet.
  found-status :
      (c : Ctx) (code : TenantPlan) (patch : PlanPatch) (w : World) (o : Option Plan)
      → ((old : Plan)
          → o ≡ some old
          → (plan_checks old ≡ none) × (next_version old.record_version ≢ none))
      → FitsColumns p patch
      → patch_error code patch ≡ none
      → status_after p 200 c (
          wrap_result p
            (expected_plan_update p code patch.record_version (plan_update code patch) w o).0)
        ≡ row_status patch o
  unfolding expected_plan_update new_error with_details handle_error domain_error_status
      wrap_conn_err
  found-status c code patch w none met fits passed = refl
  found-status c code patch w (some old) met fits passed =
      elim (Bool-cases (eq_ℤ old.record_version patch.record_version)) [
        | inr stale ↦ rw (stale, expected_plan_update) refl
        | inl same ↦
            let (checks, room) = met old refl in
            let (row, done) =
              updated_plan-accepted p w.now code patch old fits passed checks room in
            rw (same, done, expected_plan_update) refl
      ]

  module _ (s : PlanService) (repo : s.repo ≡ plan_repository p) where
    invalidated : (x : Result Plan × World) → (on (invalidate s.cache) fail x).0 ≡ x.0
    invalidated (ok r, w) = go s.cache
      where
        go : (o : Option Cache) → (invalidate o r w).0 ≡ ok r
        go none = refl
        go (some cache) = advisory-ok (cache.delete (plans_key ∷ [])) r w
    invalidated (err e, w) = refl

    plan_at-known :
        (code : TenantPlan) (rows : List Plan)
        → is_known code ≡ true
        → plan_at p code rows ≡ ok (find (λ r. r.code == code) rows)
    unfolding plan_at
    plan_at-known code rows known =
        let label = rw (known-label code) at known in rw (label, plan_at) refl

    -- The guards let the patch pass: the answer is that of the statement.
    pub sent-status :
        (c : Ctx) (code : TenantPlan) (patch : PlanPatch) (w : World)
        → patch_error code patch ≡ none
        → status_after p 200 c (patch_unless s code patch none w).0
          ≡ status_after p 200 c (
              wrap_result p
                (unless_rejected w
                  (encoding_error p (plan_update code patch).sets (plan_update code patch).args)
                  (ok (find (λ r. r.code == code) w.plans))
                  (input_error p (values p (plan_update code patch).args))
                  (label_error p (plan_update code patch).sets (plan_update code patch).args)
                  (expected_plan_update p code patch.record_version (plan_update code patch) w)).0)
    unfolding Repository.update
    sent-status c code patch w passed =
        let valid = patch_error-IsValid code patch passed in
        let up = plan_update code patch in
        let result =
          update_sets-result code patch.record_version up w up.sets
            (plan_update-Sets code patch valid.nonempty) in
        ap (status_after p 200 c) (invalidated (s.repo.update code patch w))
        ∙ (rw (repo, result, plan_at-known code w.plans valid.known) refl)

    -- The guards let the patch pass.
    passed-status :
        (c : Ctx) (code : TenantPlan) (patch : PlanPatch) (w : World)
        → IsPlanTable w.plans
        → ((old : Plan)
            → find (λ r. r.code == code) w.plans ≡ some old
            → next_version old.record_version ≢ none)
        → FitsColumns p patch
        → patch_error code patch ≡ none
        → status_after p 200 c (patch_unless s code patch none w).0
          ≡ row_status patch (find (λ r. r.code == code) w.plans)
    unfolding unless_rejected
    passed-status c code patch w table room fits passed =
        let taken = plan_update-IsTaken p code patch fits passed in
        sent-status c code patch w passed
        ∙ rw (taken.encoded, taken.read, taken.labelled, unless_rejected)
            (found-status c code patch w (find (λ r. r.code == code) w.plans)
              (λ old at.
                ((plan_at-IsPlanRow p code w.plans {old = old} table at).checks, room old at))
              fits passed)

    pub service-status :
        (c : Ctx) (code : TenantPlan) (patch : PlanPatch) (w : World)
        → IsPlanTable w.plans
        → ((old : Plan)
            → find (λ r. r.code == code) w.plans ≡ some old
            → next_version old.record_version ≢ none)
        → FitsColumns p patch
        → status_after p 200 c (Service.patch s code patch w).0 ≡ guarded_status code patch w.plans
    unfolding Service.patch handle_error new_error domain_error_status
    service-status c code patch w table room fits = elim (Bool-cases (is_known code)) [
      | inr unknown ↦ rw (unknown, Service.patch, unknown_error p code patch unknown) refl
      | inl known ↦ elim (Option-cases (patch_error code patch)) [
        | inr (e, stopped) ↦
            rw (known, Service.patch, stopped) (patch_error-Is400 p c code patch known e stopped)
        | inl passed ↦
            rw (known, Service.patch, passed) (passed-status c code patch w table room fits passed)
      ]
    ]
