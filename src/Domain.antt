-- ===== src/Domain.antt =====
-- internal/core/domain: the two aggregates, their enumerations and the error catalogue.
pub mod Errors
use iam_catalog_admin.Base.{ℕ, String, Bool, Option, ℤ, List}
use iam_catalog_admin.Json.{Map}

-- uuid.UUID, an array of 16 bytes, as the number that it spells.
abbrev pub Uuid : Type 0
Uuid = ℕ

-- time.Time, in microseconds.
abbrev pub Time : Type 0
Time = ℕ

pub record Department : Type 0 where
  pub id : Uuid
  pub code : String
  pub name : String
  pub is_system : Bool
  pub is_active : Bool
  pub record_version : ℤ
  pub created_at : Time
  pub updated_at : Time

-- `type TenantPlan string`: any text may be converted to it.
abbrev pub TenantPlan : Type 0
TenantPlan = String

abbrev pub plan_starter : TenantPlan
plan_starter = "starter"

abbrev pub plan_pro : TenantPlan
plan_pro = "pro"

abbrev pub plan_enterprise : TenantPlan
plan_enterprise = "enterprise"

abbrev pub BrandingLevel : Type 0
BrandingLevel = String

abbrev pub branding_none : BrandingLevel
branding_none = "none"

abbrev pub branding_logo : BrandingLevel
branding_logo = "logo"

-- A limit is a `*int`; `none` is the nil pointer, unlimited.
pub record Plan : Type 0 where
  pub code : TenantPlan
  pub display_name : String
  pub workflow_template_limit : Option ℤ
  pub tender_limit : Option ℤ
  pub trial_duration_days : ℤ
  pub sso_enabled : Bool
  pub custom_branding : BrandingLevel
  pub feature_set : Map
  pub record_version : ℤ
  pub created_at : Time
  pub updated_at : Time

-- A limit is a `**int`: unset, set to nil, or set to a number.
pub record PlanPatch : Type 0 where
  pub display_name : Option String
  pub workflow_template_limit : Option (Option ℤ)
  pub tender_limit : Option (Option ℤ)
  pub trial_duration_days : Option ℤ
  pub sso_enabled : Option Bool
  pub custom_branding : Option BrandingLevel
  pub feature_set : Option Map
  pub record_version : ℤ
