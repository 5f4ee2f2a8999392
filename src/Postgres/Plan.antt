-- ===== src/Postgres/Plan.antt =====
-- plan_repository.go
pub mod Building
pub mod Found
pub mod Locking
use iam_catalog_admin.Base.{
  ℕ, String, Bool, Option, none, some, ℤ, List, [], ◌∷◌, sort_by, if◌then◌else◌,
}
use iam_catalog_admin.Json.{num, Map}
use iam_catalog_admin.Domain.{Plan, PlanPatch, TenantPlan}
use iam_catalog_admin.Domain.Errors.{
  Error, no_rows, is, new_error, with_details, err_plan_not_found, err_no_mutable_field,
  err_optimistic_lock_conflict,
}
use iam_catalog_admin.Exec.{Result, ok, err, Exec, pure, fail, lift, on, handle, ◌>>=◌}
use iam_catalog_admin.World.{World, inc, writes_total, optimistic_lock_conflicts}
use iam_catalog_admin.Port.{PlanRepository}
use iam_catalog_admin.Postgres.Pgx.{Pgx, statement}
use iam_catalog_admin.Postgres.Db.{with_pool}
use iam_catalog_admin.Postgres.Statement.{
  Update, Arg, text, bool, int, nullable_int, jsonb, set_column,
}
use iam_catalog_admin.Postgres.PlanSchema.{update_plans, plan_at}

-- `if patch.X != nil { sets = append(sets, "x = " + next(*patch.X)) }`
abbrev pub set_if {ℓ} : {A : Type ℓ} → String → (A → Arg) → Option A → Update → Update
set_if column arg none u = u
set_if column arg (some a) u = set_column column (arg a) u

-- The SET list and the arguments of Update.
unfoldable pub plan_update : TenantPlan → PlanPatch → Update
unfolding set_column
plan_update code patch =
    let u0 : Update = record { sets = []; args = text code ∷ int patch.record_version ∷ [] } in
    let u1 = set_if "display_name" text patch.display_name u0 in
    let u2 = set_if "workflow_template_limit" nullable_int patch.workflow_template_limit u1 in
    let u3 = set_if "tender_limit" nullable_int patch.tender_limit u2 in
    let u4 = set_if "trial_duration_days" int patch.trial_duration_days u3 in
    let u5 = set_if "sso_enabled" bool patch.sso_enabled u4 in
    let u6 = set_if "custom_branding" text patch.custom_branding u5 in
    set_if "feature_set" jsonb patch.feature_set u6

module _ (p : Pgx) where
  -- planListFromTx
  unfoldable pub plan_list_from_tx : Exec World (List Plan)
  plan_list_from_tx =
      statement p 0 (λ w. (ok (sort_by (λ a b. p.collate a.code b.code) w.plans), w))

  unfoldable pub list : Exec World (List Plan)
  list = with_pool p plan_list_from_tx

  -- Scan of the row of a QueryRow: no row is an error.
  abbrev pub scan : Result (Option Plan) → Result Plan
  scan (err e) = err e
  scan (ok none) = err no_rows
  scan (ok (some r)) = ok r

  abbrev pub not_found_of : Error → Error
  not_found_of no_rows = new_error err_plan_not_found "plan not found"
  not_found_of e = e

  -- The transaction of FindByCode.
  unfoldable pub find_by_code_from_tx : TenantPlan → Exec World Plan
  find_by_code_from_tx code =
      handle (statement p 0 (λ w. (scan (plan_at p code w.plans), w))) pure
        (λ e. fail (not_found_of e))

  unfoldable pub find_by_code : TenantPlan → Exec World Plan
  find_by_code code = with_pool p (find_by_code_from_tx code)

  abbrev pub update_rows : TenantPlan → ℤ → Update → Exec World Plan
  update_rows code version u w =
      let (r, rows) = update_plans p w.now code version u w.plans in
      (scan r, record w { plans = rows })

  -- The second statement of planUpdateFromTx: the row is missing, or has another version.
  unfoldable pub probe : TenantPlan → Exec World Plan
  probe code =
      handle (statement p 1 (λ w. (scan (plan_at p code w.plans), w)))
        (λ r. fail (
          with_details (("record_version", num r.record_version) ∷ [])
            (new_error err_optimistic_lock_conflict "record version conflict")))
        (λ e. fail (not_found_of e))

  abbrev pub probe_if_no_rows : TenantPlan → Error → Exec World Plan
  probe_if_no_rows code no_rows = probe code
  probe_if_no_rows code e = fail e

  -- planUpdateFromTx
  unfoldable pub plan_update_from_tx : TenantPlan → ℤ → Update → Exec World Plan
  plan_update_from_tx code version u =
      handle (statement p 0 (update_rows code version u)) pure (probe_if_no_rows code)

  abbrev pub count_conflict : Error → Exec World Plan
  count_conflict e =
      if is e err_optimistic_lock_conflict
      then (inc (optimistic_lock_conflicts "plans") >>= λ _. fail e)
      else fail e

  -- The transaction of Update.
  unfoldable pub update_from_tx : TenantPlan → ℤ → Update → Exec World Plan
  update_from_tx code version u =
      handle (plan_update_from_tx code version u)
        (λ updated. inc (writes_total "plans" "update") >>= λ _. pure updated) count_conflict

  abbrev pub update_sets : TenantPlan → ℤ → Update → List (String × ℕ) → Exec World Plan
  update_sets code version u [] =
      fail (new_error err_no_mutable_field "at least one field must be provided")
  update_sets code version u (s ∷ sets) = with_pool p (update_from_tx code version u)

  -- The patch is not nil: the handler makes it.
  unfoldable pub update : TenantPlan → PlanPatch → Exec World Plan
  update code patch =
      let u = plan_update code patch in update_sets code patch.record_version u u.sets

  abbrev pub plan_repository : PlanRepository
  plan_repository = record { list = list; find_by_code = find_by_code; update = update }
