-- ===== src/Http/Bind.antt =====
-- dto.go, and the decoding of request bodies: gin's ShouldBindJSON reads the first document of the
-- body with encoding/json and then checks the `binding` tags.
use iam_catalog_admin.Base.{
  String, Bool, false, not, ◌&&◌, Option, none, some, ℤ, pos, [], ◌≡◌, if◌then◌else◌,
}
use iam_catalog_admin.Base.Text.{is_empty}
use iam_catalog_admin.Json.{Json, null, obj, members, Map}
use iam_catalog_admin.Json.Decode.{
  ◌>>=◌, field, set_string, set_bool, set_int, set_string_ptr, set_bool_ptr, set_int_ptr, set_raw,
  struct_members, to_map, put_all,
}
use iam_catalog_admin.Http.Context.{
  Request, PlatformContext, Body, no_body, document, document_then, malformed,
}
use iam_catalog_admin.Http.Respond.{Response}

-- What gincommon's ProtectedMiddlewares decide, and gin's `required` tag on a string.
pub data Auth : Type 0 where
  accepted : Option PlatformContext → Auth
  rejected : Response → Auth

pub record Gin : Type 0 where
  pub protect : Request → Auth
  pub required : String → Bool

-- The documented meaning of `required`: not the zero value.
pub record IsGin (g : Gin) : Type 0 where
  pub required-eq : (s : String) → g.required s ≡ not (is_empty s)

-- The document that a json.Decoder reads first.
abbrev pub first_document : Body → Option Json
first_document no_body = none
first_document (document v) = some v
first_document (document_then v) = some v
first_document malformed = none

pub record DepartmentCreateRequest : Type 0 where
  pub code : String
  pub name : String
  pub is_system : Bool

-- The tags `binding:"required"` of code and name.
abbrev required_strings : Gin → DepartmentCreateRequest → Option DepartmentCreateRequest
required_strings g req = if g.required req.code && g.required req.name then some req else none

unfoldable pub bind_create : Gin → Body → Option DepartmentCreateRequest
unfolding field
bind_create g b = do
  v ← first_document b
  m ← struct_members v
  code ← field set_string "code" "" m
  name ← field set_string "name" "" m
  is_system ← field set_bool "is_system" false m
  required_strings g (record { code = code; name = name; is_system = is_system })

pub record DepartmentPatchRequest : Type 0 where
  pub name : Option String
  pub is_active : Option Bool
  pub record_version : ℤ

unfoldable pub bind_patch : Body → Option DepartmentPatchRequest
unfolding field
bind_patch b = do
  v ← first_document b
  m ← struct_members v
  name ← field set_string_ptr "name" none m
  is_active ← field set_bool_ptr "is_active" none m
  record_version ← field set_int "record_version" (pos 0) m
  some (record { name = name; is_active = is_active; record_version = record_version })

-- The first pass of CAT-2: json.Unmarshal of the whole body into a map, which stays nil for an
-- empty body.
unfoldable pub raw_members : Body → Option Map
unfolding to_map
raw_members no_body = some []
raw_members (document null) = some []
raw_members (document (obj ms)) = some (to_map (members ms))
raw_members b = none

pub record PlanPatchBody : Type 0 where
  pub display_name : Option String
  pub workflow_template_limit : Option Json
  pub tender_limit : Option Json
  pub trial_duration_days : Option ℤ
  pub sso_enabled : Option Bool
  pub custom_branding : Option String
  pub feature_set : Option Map
  pub record_version : ℤ

-- A member goes into the map that is there, and into a new one where there is none.
abbrev set_map : Option Map → Json → Option (Option Map)
set_map o null = some none
set_map none (obj ms) = some (some (to_map (members ms)))
set_map (some m) (obj ms) = some (some (put_all (members ms) m))
set_map o _ = none

unfoldable pub bind_plan_patch : Body → Option PlanPatchBody
unfolding field to_map put_all
bind_plan_patch b = do
  v ← first_document b
  m ← struct_members v
  display_name ← field set_string_ptr "display_name" none m
  workflow_template_limit ← field set_raw "workflow_template_limit" none m
  tender_limit ← field set_raw "tender_limit" none m
  trial_duration_days ← field set_int_ptr "trial_duration_days" none m
  sso_enabled ← field set_bool_ptr "sso_enabled" none m
  custom_branding ← field set_string_ptr "custom_branding" none m
  feature_set ← field set_map "feature_set" none m
  record_version ← field set_int "record_version" (pos 0) m
  some (record {
    display_name = display_name;
    workflow_template_limit = workflow_template_limit;
    tender_limit = tender_limit;
    trial_duration_days = trial_duration_days;
    sso_enabled = sso_enabled;
    custom_branding = custom_branding;
    feature_set = feature_set;
    record_version = record_version;
  })
