-- ===== src/Http/Departments.antt =====
-- department_handler.go
use iam_catalog_admin.Base.{ℕ, String, Option, none, some, List, [], ◌∷◌, map, ◌==◌, if◌then◌else◌}
use iam_catalog_admin.Json.{Json, num, bool, str, arr, obj, of_items, of_members, Map, get}
use iam_catalog_admin.Domain.{Department, Uuid}
use iam_catalog_admin.Domain.Errors.{
  Error, new_error, with_details, is, err_validation, err_field_immutable,
  err_optimistic_lock_conflict,
}
use iam_catalog_admin.Exec.{Result, ok, err}
use iam_catalog_admin.World.{World, inc, writes_total, optimistic_lock_conflicts}
use iam_catalog_admin.Postgres.Pgx.{Pgx}
use iam_catalog_admin.Service.Codec.{Codec}
use iam_catalog_admin.Service.Department as Service
use iam_catalog_admin.Service.Department.{DepartmentService}
use iam_catalog_admin.Http.Context.{Ctx}
use iam_catalog_admin.Http.Respond.{Response, reply, handle_error, answer}
use iam_catalog_admin.Http.Middleware.{parse_uuid_param, require_operator}
use iam_catalog_admin.Http.Bind.{
  Gin, DepartmentCreateRequest, DepartmentPatchRequest, bind_create, bind_patch, raw_members,
}

module _ (p : Pgx) (k : Codec) (g : Gin) where
  unfoldable pub department_to_response : Department → Map
  department_to_response d =
      ("id", str (k.uuid_text d.id))
      ∷ ("code", str d.code)
      ∷ ("name", str d.name)
      ∷ ("is_system", bool d.is_system)
      ∷ ("is_active", bool d.is_active)
      ∷ ("record_version", num d.record_version)
      ∷ []

  unfoldable pub department_items : List Department → Json
  unfolding department_to_response
  department_items ds = arr (of_items (map (λ d. obj (of_members (department_to_response d))) ds))

  -- CAT-6
  unfoldable pub list : DepartmentService → Ctx → World → Response × World
  unfolding department_items answer
  list s c w =
      answer p c (λ ds w'. (reply 200 (("items", department_items ds) ∷ []), w'))
        (Service.list k s (c.request.active_only == "true") w)

  -- The answer with one department.
  abbrev pub found : ℕ → Department → World → Response × World
  found status d w = (reply status (department_to_response d), w)

  abbrev pub get_at : DepartmentService → Ctx → World → Uuid → Response × World
  get_at s c w id = answer p c (found 200) (Service.get s id w)

  -- CAT-7
  unfoldable pub get_one : DepartmentService → Ctx → World → Response × World
  unfolding parse_uuid_param department_to_response answer
  get_one s c w = elim (parse_uuid_param k c.request.id) [
    | err e ↦ (handle_error p c.request e, w)
    | ok id ↦ get_at s c w id
  ]

  -- metrics.WritesTotal.WithLabelValues("departments", op).Inc(), then the answer
  abbrev pub written : String → ℕ → Department → World → Response × World
  written op status d w = found status d (inc (writes_total "departments" op) w).1

  abbrev pub create_bound :
      DepartmentService → Ctx → World → Option DepartmentCreateRequest → Response × World
  create_bound s c w none =
      (handle_error p c.request (new_error err_validation "invalid request body"), w)
  create_bound s c w (some req) =
      answer p c (written "insert" 201) (Service.create s req.code req.name req.is_system w)

  -- CAT-1
  unfoldable pub create : DepartmentService → Ctx → World → Response × World
  unfolding require_operator bind_create department_to_response answer inc new_error
  create s c w = elim (require_operator c) [
    | some e ↦ (handle_error p c.request e, w)
    | none ↦ create_bound s c w (bind_create g c.request.body)
  ]

  unfoldable pub immutable : String → Error
  unfolding new_error with_details
  immutable name = with_details (("code", str "field_immutable") ∷ ("field", str name) ∷ []) (
      new_error err_field_immutable
        (if name == "code" then "code is immutable" else "is_system is immutable"))

  -- The first pass over the raw body: the error that ends it, if there is one.
  unfoldable pub raw_error : Option Map → Option Error
  unfolding immutable get new_error
  raw_error none = some (new_error err_validation "invalid request body")
  raw_error (some raw) = elim (get "code" raw) [
    | some _ ↦ some (immutable "code")
    | none ↦ elim (get "is_system" raw) [ some _ ↦ some (immutable "is_system") | none ↦ none ]
  ]

  -- The handler's own count of a conflict.
  abbrev pub failed : Ctx → Error → World → Response × World
  failed c e w = (
    handle_error p c.request e,
    if is e err_optimistic_lock_conflict
        then (inc (optimistic_lock_conflicts "departments") w).1
        else w,
  )

  abbrev pub patched : Ctx → Result Department × World → Response × World
  patched c (ok d, w) = written "update" 200 d w
  patched c (err e, w) = failed c e w

  abbrev pub patch_bound :
      DepartmentService → Ctx → World → Uuid → Option DepartmentPatchRequest → Response × World
  patch_bound s c w id none =
      (handle_error p c.request (new_error err_validation "invalid request body"), w)
  patch_bound s c w id (some req) =
      patched c (Service.patch p s id req.name req.is_active req.record_version w)

  abbrev pub patch_at : DepartmentService → Ctx → World → Uuid → Response × World
  patch_at s c w id = elim (raw_error (raw_members c.request.body)) [
    | some e ↦ (handle_error p c.request e, w)
    | none ↦ patch_bound s c w id (bind_patch c.request.body)
  ]

  -- CAT-2
  unfoldable pub patch : DepartmentService → Ctx → World → Response × World
  unfolding require_operator parse_uuid_param raw_members raw_error bind_patch
      department_to_response inc is new_error
  patch s c w = elim (require_operator c) [
    | some e ↦ (handle_error p c.request e, w)
    | none ↦ elim (parse_uuid_param k c.request.id) [
      | err e ↦ (handle_error p c.request e, w)
      | ok id ↦ patch_at s c w id
    ]
  ]

  -- CAT-3
  unfoldable pub delete_blocked : DepartmentService → Ctx → World → Response × World
  unfolding require_operator
  delete_blocked s c w = elim (require_operator c) [
    | some e ↦ (handle_error p c.request e, w)
    | none ↦ (handle_error p c.request Service.delete_blocked, w)
  ]
