-- ===== src/Service/Plan.antt =====
-- internal/core/service/plan_service.go
pub mod Validation
pub mod Accepted
pub mod Taken
pub mod Cached
use iam_catalog_admin.Base.{
  String, Bool, true, false, not, ◌||◌, ◌&&◌, Option, none, some, ℤ, pos, List, [], ◌∷◌, is_neg,
  is_some, ◌==◌, if◌then◌else◌,
}
use iam_catalog_admin.Base.Text.{is_blank}
use iam_catalog_admin.Json.{Json, null, bool, num, frac, str, arr, obj, Map}
use iam_catalog_admin.Domain.{
  Plan, PlanPatch, TenantPlan, plan_starter, plan_pro, plan_enterprise, branding_none,
  branding_logo,
}
use iam_catalog_admin.Domain.Errors.{
  Error, new_error, with_details, err_validation, err_no_mutable_field, err_plan_not_found,
  err_invalid_feature_value,
}
use iam_catalog_admin.Exec.{Result, ok, err, Exec, pure, fail, on, handle, ◌>>=◌}
use iam_catalog_admin.World.{World, Bytes}
use iam_catalog_admin.Port.{PlanRepository, Cache}
use iam_catalog_admin.Service.Codec.{Codec, marshal_plans, unmarshal_plans}
use iam_catalog_admin.Service.Department.{advisory, is_pos}

pub record PlanService : Type 0 where
  pub repo : PlanRepository
  pub cache : Option Cache
  pub cache_ttl : ℤ

abbrev pub default_plans_cache_ttl : ℤ
default_plans_cache_ttl = pos 60000000000

unfoldable pub new_plan_service : PlanRepository → Option Cache → PlanService
new_plan_service repo cache = record {
  repo = repo;
  cache = cache;
  cache_ttl = default_plans_cache_ttl;
}

unfoldable pub with_cache_ttl : ℤ → PlanService → PlanService
with_cache_ttl d s = if is_pos d then record s { cache_ttl = d } else s

abbrev pub plans_key : String
plans_key = "cat:plans"

module _ (c : Codec) where
  abbrev pub cached : Option Bytes → Option (List Plan)
  cached none = none
  cached (some raw) = unmarshal_plans c raw

  -- repo.List, and the entry that it leaves in the cache.
  unfoldable pub load_all : PlanService → Cache → Exec World (List Plan)
  load_all s cache = do
    all ← s.repo.list
    advisory (cache.set plans_key (marshal_plans c all) s.cache_ttl) all

  abbrev pub or_load : PlanService → Cache → Option (List Plan) → Exec World (List Plan)
  or_load s cache (some ps) = pure ps
  or_load s cache none = load_all s cache

  abbrev pub list_with : PlanService → Option Cache → Exec World (List Plan)
  list_with s none = s.repo.list
  list_with s (some cache) =
      handle (cache.get plans_key) (λ raw. or_load s cache (cached raw)) (λ _. load_all s cache)

  unfoldable pub list : PlanService → Exec World (List Plan)
  list s = list_with s s.cache

-- case domain.PlanStarter, domain.PlanPro, domain.PlanEnterprise
unfoldable pub is_known : TenantPlan → Bool
is_known code = code == plan_starter || code == plan_pro || code == plan_enterprise

unfoldable pub get_by_code : PlanService → TenantPlan → Exec World Plan
get_by_code s code =
    if is_known code
    then s.repo.find_by_code code
    else fail (new_error err_plan_not_found "plan not found")

-- Every mutable field is nil.
unfoldable pub is_empty_patch : PlanPatch → Bool
is_empty_patch p =
    not (is_some p.display_name)
    && not (is_some p.workflow_template_limit)
    && not (is_some p.tender_limit)
    && not (is_some p.trial_duration_days)
    && not (is_some p.sso_enabled)
    && not (is_some p.custom_branding)
    && not (is_some p.feature_set)

abbrev pub is_blank_text : Option String → Bool
is_blank_text none = false
is_blank_text (some s) = is_blank s

abbrev pub is_neg_int : Option ℤ → Bool
is_neg_int none = false
is_neg_int (some z) = is_neg z

abbrev pub is_neg_limit : Option (Option ℤ) → Bool
is_neg_limit none = false
is_neg_limit (some l) = is_neg_int l

abbrev pub is_bad_branding : Option String → Bool
is_bad_branding none = false
is_bad_branding (some b) = not (b == branding_none || b == branding_logo)

-- The type switch on a value of feature_set.
abbrev pub is_scalar : Json → Bool
is_scalar (arr vs) = false
is_scalar (obj ms) = false
is_scalar v = true

-- The first key, in the order of the range, whose value is no scalar.
unfoldable pub bad_feature : Map → Option String
bad_feature [] = none
bad_feature ((k, v) ∷ m) = if is_scalar v then bad_feature m else some k

abbrev pub features : Option Map → Map
features none = []
features (some m) = m

abbrev pub features_error : Option String → Option Error
features_error none = none
features_error (some k) = some (
    with_details (("key", str k) ∷ [])
      (new_error err_invalid_feature_value "feature_set values must be scalars"))

-- The guards of Patch, in their order: the error of the first that fails.
unfoldable pub patch_error : TenantPlan → PlanPatch → Option Error
unfolding is_known is_empty_patch bad_feature new_error with_details
patch_error code p =
    if not (is_known code)
    then some (new_error err_plan_not_found "plan not found")
    else if is_empty_patch p
    then some (
        with_details (("code", str "no_mutable_field") ∷ [])
          (new_error err_no_mutable_field "at least one field must be provided"))
    else if is_blank_text p.display_name
    then some (new_error err_validation "display_name must not be empty")
    else if is_neg_limit p.workflow_template_limit
    then some (new_error err_validation "workflow_template_limit must be >= 0")
    else if is_neg_limit p.tender_limit
    then some (new_error err_validation "tender_limit must be >= 0")
    else if is_neg_int p.trial_duration_days
    then some (new_error err_validation "trial_duration_days must be >= 0")
    else if is_bad_branding p.custom_branding
    then some (new_error err_validation "custom_branding must be one of: none, logo")
    else features_error (bad_feature (features p.feature_set))

abbrev pub invalidate : Option Cache → Plan → Exec World Plan
invalidate none r = pure r
invalidate (some cache) r = advisory (cache.delete (plans_key ∷ [])) r

abbrev pub patch_unless : PlanService → TenantPlan → PlanPatch → Option Error → Exec World Plan
patch_unless s code p (some e) = fail e
patch_unless s code p none = do r ← s.repo.update code p; invalidate s.cache r

unfoldable pub patch : PlanService → TenantPlan → PlanPatch → Exec World Plan
patch s code p = patch_unless s code p (patch_error code p)
