-- ===== src/Service/Codec/Roundtrip.antt =====
-- What the services write into the cache they read back.
use iam_catalog_admin.Base.{
  true, Option, none, some, ℤ, List, [], ◌∷◌, ◌≡◌, refl, map, All, fits_int64,
}
use iam_catalog_admin.Json.{Json, Map, get}
use iam_catalog_admin.Json.Maps.{items-of_items, members-of_members}
use iam_catalog_admin.Json.Decode.{to_map, set_int_ptr}
use iam_catalog_admin.Domain.{Department, Plan}
use iam_catalog_admin.Service.Codec.{
  Codec, IsCodec, department_json, decode_department, decode_each, marshal_departments,
  unmarshal_departments, plan_json, decode_plan, limit_json, marshal_plans, unmarshal_plans,
}

decode_each-map {ℓ} :
    {A : Type ℓ} (P : A → Type 0) (decode : Json → Option A) (encode : A → Json)
    → ((a : A) → P a → decode (encode a) ≡ some a)
    → (xs : List A) → All P xs
    → decode_each decode (map encode xs) ≡ some xs
unfolding decode_each
decode_each-map P decode encode k [] h = refl
decode_each-map P decode encode k (x ∷ xs) h =
    rw (k x h.0, decode_each-map P decode encode k xs h.1)

-- The version is an int64.
abbrev pub HasInt64 : Department → Type 0
HasInt64 d = fits_int64 d.record_version ≡ true

module _ {c : Codec} (laws : IsCodec c) where
  decode_department-department_json :
      (d : Department) → HasInt64 d → decode_department c (department_json c d) ≡ some d
  unfolding decode_department department_json
  decode_department-department_json d h = rw (
    laws.parse_uuid-uuid_text d.id,
    laws.parse_time-time_text d.created_at,
    laws.parse_time-time_text d.updated_at,
    h,
  )

  -- If every version is an int64, then the bytes that the department service caches decode to the
  -- very list that was cached.
  pub unmarshal_departments-marshal_departments :
      (ds : List Department)
      → All HasInt64 ds
      → unmarshal_departments c (marshal_departments c ds) ≡ some ds
  unfolding unmarshal_departments marshal_departments
  unmarshal_departments-marshal_departments ds h =
      rw (items-of_items (map (department_json c) ds)) (
        decode_each-map HasInt64 (decode_department c) (department_json c)
          decode_department-department_json ds h)

-- A Go map: no key twice.
abbrev pub IsMap : Map → Type 0
IsMap [] = Unit
IsMap ((k, v) ∷ m) = (get k m ≡ none) × IsMap m

pub to_map-IsMap : (m : Map) → IsMap m → to_map m ≡ m
unfolding to_map
to_map-IsMap [] h = refl
to_map-IsMap ((k, v) ∷ m) h = rw (h.0, to_map-IsMap m h.1, to_map)

abbrev FitsLimit : Option ℤ → Type 0
FitsLimit none = Unit
FitsLimit (some z) = fits_int64 z ≡ true

-- The numbers of a plan are ints and its feature_set is a map.
pub record IsGoPlan (r : Plan) : Type 0 where
  pub workflow : FitsLimit r.workflow_template_limit
  pub tender : FitsLimit r.tender_limit
  pub trial : fits_int64 r.trial_duration_days ≡ true
  pub features : IsMap r.feature_set
  pub version : fits_int64 r.record_version ≡ true

decode_limit : (l : Option ℤ) → FitsLimit l → set_int_ptr none (limit_json l) ≡ some l
decode_limit none h = refl
decode_limit (some z) h = rw h

module _ {c : Codec} (laws : IsCodec c) where
  decode_plan-plan_json : (r : Plan) → IsGoPlan r → decode_plan c (plan_json c r) ≡ some r
  unfolding decode_plan plan_json
  decode_plan-plan_json r h = rw (
    decode_limit r.workflow_template_limit h.workflow,
    decode_limit r.tender_limit h.tender,
    h.trial,
    members-of_members r.feature_set,
    to_map-IsMap r.feature_set h.features,
    h.version,
    laws.parse_time-time_text r.created_at,
    laws.parse_time-time_text r.updated_at,
  )

  -- If the numbers of every plan are 64-bit integers and every feature_set is a map, then the bytes
  -- that the plan service caches decode to the very list that was cached.
  pub unmarshal_plans-marshal_plans :
      (ps : List Plan) → All IsGoPlan ps → unmarshal_plans c (marshal_plans c ps) ≡ some ps
  unfolding unmarshal_plans marshal_plans
  unmarshal_plans-marshal_plans ps h =
      rw (items-of_items (map (plan_json c) ps))
        (decode_each-map IsGoPlan (decode_plan c) (plan_json c) decode_plan-plan_json ps h)
