-- ===== src/Service/Codec.antt =====
-- The cached catalogs: json.Marshal and json.Unmarshal of []domain.Department and []domain.Plan,
-- whose structs have no tags, so that the members bear the names of the Go fields. The texts of a
-- uuid.UUID and of a time.Time are parameters.
pub mod Roundtrip
use iam_catalog_admin.Base.{
  ℕ, String, Bool, false, Option, none, some, ℤ, pos, List, [], ◌∷◌, map, ◌≡◌,
}
use iam_catalog_admin.Json.{Json, null, bool, num, frac, str, arr, obj, items, of_items, of_members}
use iam_catalog_admin.Json.{Map, members}
use iam_catalog_admin.Json.Decode.{
  ◌>>=◌, field, set_string, set_bool, set_int, set_int_ptr, struct_members, to_map, put_all,
}
use iam_catalog_admin.Domain.{Department, Plan, Uuid, Time}
use iam_catalog_admin.World.{Bytes, json, junk}

pub record Codec : Type 0 where
  pub uuid_text : Uuid → String
  pub parse_uuid : String → Option Uuid
  pub time_text : Time → String
  pub parse_time : String → Option Time
  -- t.UTC().Format(time.RFC3339)
  pub rfc3339 : Time → String

-- A text that was printed parses to the value that it was printed from.
pub record IsCodec (c : Codec) : Type 0 where
  pub parse_uuid-uuid_text : (u : Uuid) → c.parse_uuid (c.uuid_text u) ≡ some u
  pub parse_time-time_text : (t : Time) → c.parse_time (c.time_text t) ≡ some t

-- The elements of an array; `null` is the nil slice.
module _ {ℓ} {A : Type ℓ} (decode : Json → Option A) where
  unfoldable pub decode_each : List Json → Option (List A)
  decode_each [] = some []
  decode_each (v ∷ vs) = do a ← decode v; rest ← decode_each vs; some (a ∷ rest)

  abbrev pub decode_slice : Json → Option (List A)
  decode_slice null = some []
  decode_slice (arr vs) = decode_each (items vs)
  decode_slice _ = none

abbrev limit_json : Option ℤ → Json
limit_json none = null
limit_json (some z) = num z

module _ (c : Codec) where
  abbrev set_uuid : Uuid → Json → Option Uuid
  set_uuid u null = some u
  set_uuid u (str s) = c.parse_uuid s
  set_uuid u _ = none

  abbrev set_time : Time → Json → Option Time
  set_time t null = some t
  set_time t (str s) = c.parse_time s
  set_time t _ = none

  unfoldable pub department_json : Department → Json
  department_json d = obj (
      of_members (
        ("ID", str (c.uuid_text d.id))
        ∷ ("Code", str d.code)
        ∷ ("Name", str d.name)
        ∷ ("IsSystem", bool d.is_system)
        ∷ ("IsActive", bool d.is_active)
        ∷ ("RecordVersion", num d.record_version)
        ∷ ("CreatedAt", str (c.time_text d.created_at))
        ∷ ("UpdatedAt", str (c.time_text d.updated_at))
        ∷ []))

  unfoldable pub department_of_members : Map → Option Department
  unfolding field
  department_of_members m = do
    id ← field set_uuid "ID" 0 m
    code ← field set_string "Code" "" m
    name ← field set_string "Name" "" m
    is_system ← field set_bool "IsSystem" false m
    is_active ← field set_bool "IsActive" false m
    record_version ← field set_int "RecordVersion" (pos 0) m
    created_at ← field set_time "CreatedAt" 0 m
    updated_at ← field set_time "UpdatedAt" 0 m
    some (record {
      id = id;
      code = code;
      name = name;
      is_system = is_system;
      is_active = is_active;
      record_version = record_version;
      created_at = created_at;
      updated_at = updated_at;
    })

  unfoldable pub decode_department : Json → Option Department
  unfolding department_of_members
  decode_department v = do m ← struct_members v; department_of_members m

  unfoldable pub marshal_departments : List Department → Bytes
  unfolding department_json
  marshal_departments ds = json (arr (of_items (map department_json ds)))

  unfoldable pub unmarshal_departments : Bytes → Option (List Department)
  unfolding decode_department decode_each
  unmarshal_departments (json v) = decode_slice decode_department v
  unmarshal_departments (junk s) = none

  -- A `map[string]any`: `null` makes it nil.
  abbrev set_features : Map → Json → Option Map
  set_features m null = some []
  set_features [] (obj ms) = some (to_map (members ms))
  set_features (f ∷ m) (obj ms) = some (put_all (members ms) (f ∷ m))
  set_features m _ = none

  unfoldable pub plan_json : Plan → Json
  plan_json r = obj (
      of_members (
        ("Code", str r.code)
        ∷ ("DisplayName", str r.display_name)
        ∷ ("WorkflowTemplateLimit", limit_json r.workflow_template_limit)
        ∷ ("TenderLimit", limit_json r.tender_limit)
        ∷ ("TrialDurationDays", num r.trial_duration_days)
        ∷ ("SSOEnabled", bool r.sso_enabled)
        ∷ ("CustomBranding", str r.custom_branding)
        ∷ ("FeatureSet", obj (of_members r.feature_set))
        ∷ ("RecordVersion", num r.record_version)
        ∷ ("CreatedAt", str (c.time_text r.created_at))
        ∷ ("UpdatedAt", str (c.time_text r.updated_at))
        ∷ []))

  unfoldable pub plan_of_members : Map → Option Plan
  unfolding field to_map put_all
  plan_of_members m = do
    code ← field set_string "Code" "" m
    display_name ← field set_string "DisplayName" "" m
    workflow_template_limit ← field set_int_ptr "WorkflowTemplateLimit" none m
    tender_limit ← field set_int_ptr "TenderLimit" none m
    trial_duration_days ← field set_int "TrialDurationDays" (pos 0) m
    sso_enabled ← field set_bool "SSOEnabled" false m
    custom_branding ← field set_string "CustomBranding" "" m
    feature_set ← field set_features "FeatureSet" [] m
    record_version ← field set_int "RecordVersion" (pos 0) m
    created_at ← field set_time "CreatedAt" 0 m
    updated_at ← field set_time "UpdatedAt" 0 m
    some (record {
      code = code;
      display_name = display_name;
      workflow_template_limit = workflow_template_limit;
      tender_limit = tender_limit;
      trial_duration_days = trial_duration_days;
      sso_enabled = sso_enabled;
      custom_branding = custom_branding;
      feature_set = feature_set;
      record_version = record_version;
      created_at = created_at;
      updated_at = updated_at;
    })

  unfoldable pub decode_plan : Json → Option Plan
  unfolding plan_of_members
  decode_plan v = do m ← struct_members v; plan_of_members m

  unfoldable pub marshal_plans : List Plan → Bytes
  unfolding plan_json
  marshal_plans ps = json (arr (of_items (map plan_json ps)))

  unfoldable pub unmarshal_plans : Bytes → Option (List Plan)
  unfolding decode_plan decode_each
  unmarshal_plans (json v) = decode_slice decode_plan v
  unmarshal_plans (junk s) = none
