-- ===== src/Http/History/Handlers.antt =====
-- Every handler, over services that keep the two tables, keeps them.
use iam_catalog_admin.Base.{
  ℕ, String, Bool, true, false, Option, none, some, ◌≡◌, ◌==◌, Option-cases, inl, inr,
  if◌then◌else◌,
}
use iam_catalog_admin.Domain.{Department, Plan, PlanPatch, Uuid}
use iam_catalog_admin.Domain.Errors.{is, err_optimistic_lock_conflict}
use iam_catalog_admin.Exec.{Result, ok, err, Result-cases}
use iam_catalog_admin.World.{World, inc}
use iam_catalog_admin.Port.{Cache}
use iam_catalog_admin.Postgres.Pgx.{Pgx}
use iam_catalog_admin.Postgres.Kept.{Kept, Kept-refl, Kept-trans, KeepsDepartments, KeepsPlans}
use iam_catalog_admin.Service.Codec.{Codec}
use iam_catalog_admin.Service.Department as DepartmentServices
use iam_catalog_admin.Service.Plan as PlanServices
use iam_catalog_admin.Service.Department.Cached.{IsCache}
use iam_catalog_admin.Service.Keeps.{
  list-Keeps, get-Keeps, create-Keeps, patch-Keeps, plans-Keeps, get_by_code-Keeps,
  patch_plan-Keeps,
}
use iam_catalog_admin.Http.Context.{Ctx}
use iam_catalog_admin.Http.Respond.{Response, answer}
use iam_catalog_admin.Http.Middleware.{require_operator, require_system, parse_uuid_param}
use iam_catalog_admin.Http.Bind.{
  Gin, DepartmentCreateRequest, DepartmentPatchRequest, PlanPatchBody, bind_create, bind_patch,
  bind_plan_patch, raw_members,
}
use iam_catalog_admin.Http.Departments
use iam_catalog_admin.Http.Plans
use iam_catalog_admin.Http.Internal
use iam_catalog_admin.Http.Router.{
  Route, list_departments, get_department, create_department, patch_department, delete_department,
  list_plans, get_plan, patch_plan, internal_departments, internal_plans, Services, call,
}

-- A handler that keeps the tables.
abbrev pub Handles : (World → Response × World) → Type 0
Handles h = (w : World) → Kept w (h w).1

module _ (p : Pgx) where
  answer-Kept :
      {A : Type 0} (c : Ctx) (f : A → World → Response × World) (w : World) (x : Result A × World)
      → Kept w x.1
      → ((a : A) → Handles (f a))
      → Kept w (answer p c f x).1
  unfolding answer
  answer-Kept c f w (ok a, w') h k = Kept-trans w w' (f a w').1 h (k a w')
  answer-Kept c f w (err e, w') h k = h

  if-Kept : (b : Bool) (w w1 w2 : World) → Kept w w1 → Kept w w2 → Kept w (if b then w1 else w2)
  if-Kept true w w1 w2 h k = h
  if-Kept false w w1 w2 h k = k

-- A service with what it promises about the tables.
pub record Promises (p : Pgx) (k : Codec) (s : Services) : Type 0 where
  pub repo : KeepsDepartments s.departments.repo
  pub plan_repo : KeepsPlans s.plans.repo
  pub cache : (c : Cache) → s.departments.cache ≡ some c → IsCache c
  pub plan_cache : (c : Cache) → s.plans.cache ≡ some c → IsCache c

module _ (p : Pgx) (k : Codec) (g : Gin) (s : Services) (h : Promises p k s) where
  list-Handles : (c : Ctx) → Handles (Departments.list p k g s.departments c)
  unfolding Departments.list
  list-Handles c w =
      answer-Kept p c _ w
        (DepartmentServices.list k s.departments (c.request.active_only == "true") w)
        (list-Keeps k s.departments h.repo h.cache (c.request.active_only == "true") w)
        (λ a w'. Kept-refl w')

  get_one-Handles : (c : Ctx) → Handles (Departments.get_one p k g s.departments c)
  unfolding Departments.get_one
  get_one-Handles c w = elim (Result-cases (parse_uuid_param k c.request.id)) [
    | inl (id, read) ↦
        rw (read, Departments.get_one)
          (answer-Kept p c _ w (DepartmentServices.get s.departments id w)
            (get-Keeps k s.departments h.repo h.cache id w) (λ a w'. Kept-refl w'))
    | inr (e, bad) ↦ rw (bad, Departments.get_one) (Kept-refl w)
  ]

  written-Handles :
      (op : String) (status : ℕ) (d : Department) → Handles (Departments.written p k g op status d)
  unfolding inc
  written-Handles op status d w = Kept-refl w

  create_bound-Handles :
      (c : Ctx) (o : Option DepartmentCreateRequest)
      → Handles (λ w. Departments.create_bound p k g s.departments c w o)
  create_bound-Handles c none w = Kept-refl w
  create_bound-Handles c (some req) w =
      answer-Kept p c (Departments.written p k g "insert" 201) w
        (DepartmentServices.create s.departments req.code req.name req.is_system w)
        (create-Keeps k s.departments h.repo h.cache req.code req.name req.is_system w)
        (written-Handles "insert" 201)

  create-Handles : (c : Ctx) → Handles (Departments.create p k g s.departments c)
  unfolding Departments.create
  create-Handles c w = elim (Option-cases (require_operator c)) [
    | inl granted ↦
        rw (granted, Departments.create) (create_bound-Handles c (bind_create g c.request.body) w)
    | inr (e, denied) ↦ rw (denied, Departments.create) (Kept-refl w)
  ]

  patched-Handles :
      (c : Ctx) (w : World) (x : Result Department × World)
      → Kept w x.1
      → Kept w (Departments.patched p k g c x).1
  unfolding inc
  patched-Handles c w (ok d, w') e = e
  patched-Handles c w (err x, w') e = if-Kept p (is x err_optimistic_lock_conflict) w _ w' e e

  patch_bound-Handles :
      (c : Ctx) (id : Uuid) (o : Option DepartmentPatchRequest)
      → Handles (λ w. Departments.patch_bound p k g s.departments c w id o)
  patch_bound-Handles c id none w = Kept-refl w
  patch_bound-Handles c id (some req) w =
      patched-Handles c w
        (DepartmentServices.patch p s.departments id req.name req.is_active req.record_version w)
        (patch-Keeps k s.departments h.repo h.cache p id req.name req.is_active req.record_version
          w)

  patch_at-Handles :
      (c : Ctx) (id : Uuid) → Handles (λ w. Departments.patch_at p k g s.departments c w id)
  patch_at-Handles c id w =
      elim (Option-cases (Departments.raw_error p k g (raw_members c.request.body))) [
        | inl fine ↦
            rw (fine, Departments.patch_at) (patch_bound-Handles c id (bind_patch c.request.body) w)
        | inr (e, bad) ↦ rw (bad, Departments.patch_at) (Kept-refl w)
      ]

  patch-Handles : (c : Ctx) → Handles (Departments.patch p k g s.departments c)
  unfolding Departments.patch
  patch-Handles c w = elim (Option-cases (require_operator c)) [
    | inr (e, denied) ↦ rw (denied, Departments.patch) (Kept-refl w)
    | inl granted ↦ elim (Result-cases (parse_uuid_param k c.request.id)) [
      | inl (id, read) ↦ rw (granted, read, Departments.patch) (patch_at-Handles c id w)
      | inr (e, bad) ↦ rw (granted, bad, Departments.patch) (Kept-refl w)
    ]
  ]

  delete-Handles : (c : Ctx) → Handles (Departments.delete_blocked p k g s.departments c)
  unfolding Departments.delete_blocked
  delete-Handles c w = elim (Option-cases (require_operator c)) [
    | inl granted ↦ rw (granted, Departments.delete_blocked) (Kept-refl w)
    | inr (e, denied) ↦ rw (denied, Departments.delete_blocked) (Kept-refl w)
  ]

  list_plans-Handles : (c : Ctx) → Handles (Plans.list p k s.plans c)
  unfolding Plans.list
  list_plans-Handles c w = elim (Option-cases (require_operator c)) [
    | inl granted ↦
        rw (granted, Plans.list)
          (answer-Kept p c _ w (PlanServices.list k s.plans w)
            (plans-Keeps k s.plans h.plan_repo h.plan_cache w) (λ a w'. Kept-refl w'))
    | inr (e, denied) ↦ rw (denied, Plans.list) (Kept-refl w)
  ]

  get_plan-Handles : (c : Ctx) → Handles (Plans.get_one p k s.plans c)
  unfolding Plans.get_one
  get_plan-Handles c w = elim (Option-cases (require_operator c)) [
    | inl granted ↦
        rw (granted, Plans.get_one)
          (answer-Kept p c _ w (PlanServices.get_by_code s.plans c.request.id w)
            (get_by_code-Keeps k s.plans h.plan_repo h.plan_cache c.request.id w)
            (λ a w'. Kept-refl w'))
    | inr (e, denied) ↦ rw (denied, Plans.get_one) (Kept-refl w)
  ]

  patched_plan-Handles :
      (c : Ctx) (w : World) (x : Result Plan × World)
      → Kept w x.1
      → Kept w (Plans.patched p k c x).1
  unfolding inc
  patched_plan-Handles c w (ok r, w') e = e
  patched_plan-Handles c w (err x, w') e = if-Kept p (is x err_optimistic_lock_conflict) w _ w' e e

  patch_result-Handles :
      (c : Ctx) (r : Result PlanPatch) → Handles (λ w. Plans.patch_result p k s.plans c w r)
  patch_result-Handles c (err e) w = Kept-refl w
  patch_result-Handles c (ok patch) w =
      patched_plan-Handles c w (PlanServices.patch s.plans c.request.id patch w)
        (patch_plan-Keeps k s.plans h.plan_repo h.plan_cache c.request.id patch w)

  patch_plan_bound-Handles :
      (c : Ctx) (o : Option PlanPatchBody) → Handles (λ w. Plans.patch_bound p k s.plans c w o)
  patch_plan_bound-Handles c none w = Kept-refl w
  patch_plan_bound-Handles c (some b) w = patch_result-Handles c (Plans.plan_patch b) w

  patch_plan-Handles : (c : Ctx) → Handles (Plans.patch p k s.plans c)
  unfolding Plans.patch
  patch_plan-Handles c w = elim (Option-cases (require_operator c)) [
    | inl granted ↦
        rw (granted, Plans.patch) (patch_plan_bound-Handles c (bind_plan_patch c.request.body) w)
    | inr (e, denied) ↦ rw (denied, Plans.patch) (Kept-refl w)
  ]

  internal_departments-Handles : (c : Ctx) → Handles (Internal.departments p k g s.departments c)
  unfolding Internal.departments
  internal_departments-Handles c w = elim (Option-cases (require_system c)) [
    | inl granted ↦
        rw (granted, Internal.departments)
          (answer-Kept p c _ w (DepartmentServices.list k s.departments false w)
            (list-Keeps k s.departments h.repo h.cache false w) (λ a w'. Kept-refl w'))
    | inr (e, denied) ↦ rw (denied, Internal.departments) (Kept-refl w)
  ]

  internal_plans-Handles : (c : Ctx) → Handles (Internal.plans p k g s.plans c)
  unfolding Internal.plans
  internal_plans-Handles c w = elim (Option-cases (require_system c)) [
    | inl granted ↦
        rw (granted, Internal.plans)
          (answer-Kept p c _ w (PlanServices.list k s.plans w)
            (plans-Keeps k s.plans h.plan_repo h.plan_cache w) (λ a w'. Kept-refl w'))
    | inr (e, denied) ↦ rw (denied, Internal.plans) (Kept-refl w)
  ]

  pub call-Handles : (route : Route) (c : Ctx) → Handles (call p k g s route c)
  unfolding call
  call-Handles list_departments c = list-Handles c
  call-Handles get_department c = get_one-Handles c
  call-Handles create_department c = create-Handles c
  call-Handles patch_department c = patch-Handles c
  call-Handles delete_department c = delete-Handles c
  call-Handles list_plans c = list_plans-Handles c
  call-Handles get_plan c = get_plan-Handles c
  call-Handles patch_plan c = patch_plan-Handles c
  call-Handles internal_departments c = internal_departments-Handles c
  call-Handles internal_plans c = internal_plans-Handles c
