-- ===== src/Http/Plans.antt =====
-- plan_handler.go
use iam_catalog_admin.Base.{String, Option, none, some, ℤ, List, [], ◌∷◌, map, if◌then◌else◌}
use iam_catalog_admin.Json.{Json, null, num, bool, str, arr, obj, of_items, of_members, Map}
use iam_catalog_admin.Json.Decode.{int64_of}
use iam_catalog_admin.Domain.{Plan, PlanPatch}
use iam_catalog_admin.Domain.Errors.{
  Error, new_error, is, err_validation, err_optimistic_lock_conflict,
}
use iam_catalog_admin.Exec.{Result, ok, err}
use iam_catalog_admin.World.{World, inc, writes_total, optimistic_lock_conflicts}
use iam_catalog_admin.Postgres.Pgx.{Pgx}
use iam_catalog_admin.Service.Codec.{Codec}
use iam_catalog_admin.Service.Plan as Service
use iam_catalog_admin.Service.Plan.{PlanService}
use iam_catalog_admin.Http.Context.{Ctx}
use iam_catalog_admin.Http.Respond.{Response, reply, handle_error, answer}
use iam_catalog_admin.Http.Middleware.{require_operator}
use iam_catalog_admin.Http.Bind.{PlanPatchBody, bind_plan_patch}

abbrev limit_json : Option ℤ → Json
limit_json none = null
limit_json (some z) = num z

unfoldable pub plan_to_response : Plan → Map
plan_to_response r =
    ("code", str r.code)
    ∷ ("display_name", str r.display_name)
    ∷ ("workflow_template_limit", limit_json r.workflow_template_limit)
    ∷ ("tender_limit", limit_json r.tender_limit)
    ∷ ("trial_duration_days", num r.trial_duration_days)
    ∷ ("sso_enabled", bool r.sso_enabled)
    ∷ ("custom_branding", str r.custom_branding)
    ∷ ("feature_set", obj (of_members r.feature_set))
    ∷ ("record_version", num r.record_version)
    ∷ []

unfoldable pub plan_items : List Plan → Json
unfolding plan_to_response
plan_items ps = arr (of_items (map (λ r. obj (of_members (plan_to_response r))) ps))

abbrev pub limit_error : String → Error
limit_error message = new_error err_validation message

abbrev pub integer_limit : String → Option ℤ → Result (Option (Option ℤ))
integer_limit message none = err (limit_error message)
integer_limit message (some z) = ok (some (some z))

-- parseLimit: absent, null, or an integer
unfoldable pub parse_limit : Option Json → String → Result (Option (Option ℤ))
unfolding new_error
parse_limit none message = ok none
parse_limit (some null) message = ok (some none)
parse_limit (some (num z)) message = integer_limit message (int64_of z)
parse_limit (some v) message = err (limit_error message)

abbrev patch_with : PlanPatchBody → Option (Option ℤ) → Option (Option ℤ) → PlanPatch
patch_with b wf tender = record {
  display_name = b.display_name;
  workflow_template_limit = wf;
  tender_limit = tender;
  trial_duration_days = b.trial_duration_days;
  sso_enabled = b.sso_enabled;
  custom_branding = b.custom_branding;
  feature_set = b.feature_set;
  record_version = b.record_version;
}

abbrev pub with_tender :
    PlanPatchBody → Option (Option ℤ) → Result (Option (Option ℤ)) → Result PlanPatch
with_tender b wf (err e) = err e
with_tender b wf (ok tender) = ok (patch_with b wf tender)

abbrev pub with_limits :
    PlanPatchBody → Result (Option (Option ℤ)) → Result (Option (Option ℤ)) → Result PlanPatch
with_limits b (err e) tender = err e
with_limits b (ok wf) tender = with_tender b wf tender

-- The patch that the handler makes of a bound body.
unfoldable pub plan_patch : PlanPatchBody → Result PlanPatch
unfolding parse_limit
plan_patch b =
    with_limits b
      (parse_limit b.workflow_template_limit "workflow_template_limit must be an integer or null")
      (parse_limit b.tender_limit "tender_limit must be an integer or null")

module _ (p : Pgx) (k : Codec) where
  -- CAT-4, the list
  unfoldable pub list : PlanService → Ctx → World → Response × World
  unfolding require_operator plan_items answer
  list s c w = elim (require_operator c) [
    | some e ↦ (handle_error p c.request e, w)
    | none ↦
        answer p c (λ ps w'. (reply 200 (("items", plan_items ps) ∷ []), w')) (Service.list k s w)
  ]

  abbrev pub found : Plan → World → Response × World
  found r w = (reply 200 (plan_to_response r), w)

  -- CAT-4, one plan
  unfoldable pub get_one : PlanService → Ctx → World → Response × World
  unfolding require_operator plan_to_response answer
  get_one s c w = elim (require_operator c) [
    | some e ↦ (handle_error p c.request e, w)
    | none ↦ answer p c found (Service.get_by_code s c.request.id w)
  ]

  -- The handler's own counts.
  abbrev pub patched : Ctx → Result Plan × World → Response × World
  patched c (ok r, w) = found r (inc (writes_total "plans" "update") w).1
  patched c (err e, w) = (
    handle_error p c.request e,
    if is e err_optimistic_lock_conflict then (inc (optimistic_lock_conflicts "plans") w).1 else w,
  )

  abbrev pub patch_result : PlanService → Ctx → World → Result PlanPatch → Response × World
  patch_result s c w (err e) = (handle_error p c.request e, w)
  patch_result s c w (ok patch) = patched c (Service.patch s c.request.id patch w)

  abbrev pub patch_bound : PlanService → Ctx → World → Option PlanPatchBody → Response × World
  patch_bound s c w none =
      (handle_error p c.request (new_error err_validation "invalid request body"), w)
  patch_bound s c w (some b) = patch_result s c w (plan_patch b)

  -- CAT-5
  unfoldable pub patch : PlanService → Ctx → World → Response × World
  unfolding require_operator bind_plan_patch plan_patch plan_to_response inc is new_error
  patch s c w = elim (require_operator c) [
    | some e ↦ (handle_error p c.request e, w)
    | none ↦ patch_bound s c w (bind_plan_patch c.request.body)
  ]
