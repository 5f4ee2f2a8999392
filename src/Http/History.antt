-- ===== src/Http/History.antt =====
-- Sequences of requests: whatever is sent, the two tables stay well formed and no row of them is
-- lost.
pub mod Handlers
pub mod Stale
use iam_catalog_admin.Base.{
  ℕ, String, Bool, true, false, Option, none, some, List, [], ◌∷◌, ◌≡◌, ◌==◌, Option-cases, inl,
  inr, if◌then◌else◌,
}
use iam_catalog_admin.Domain.{Department, Plan, PlanPatch, Uuid}
use iam_catalog_admin.Domain.Errors.{is, err_optimistic_lock_conflict}
use iam_catalog_admin.Exec.{Result, ok, err, Result-cases}
use iam_catalog_admin.World.{World, inc}
use iam_catalog_admin.Port.{Cache}
use iam_catalog_admin.Postgres.Pgx.{Pgx, IsPgx}
use iam_catalog_admin.Postgres.Schema.Invariant.{IsCatalog, Evolved}
use iam_catalog_admin.Postgres.PlanSchema.Invariant.{IsPlanTable, PlansEvolved}
use iam_catalog_admin.Postgres.Department.{department_repository}
use iam_catalog_admin.Postgres.Plan.{plan_repository}
use iam_catalog_admin.Postgres.Kept.{
  Kept, Kept-refl, Kept-trans, KeepsDepartments, KeepsPlans, department_repository-Keeps,
  plan_repository-Keeps,
}
use iam_catalog_admin.Service.Codec.{Codec}
use iam_catalog_admin.Service.Department as DepartmentServices
use iam_catalog_admin.Service.Plan as PlanServices
use iam_catalog_admin.Service.Department.Cached.{IsCache}
use iam_catalog_admin.Service.Keeps.{
  list-Keeps, get-Keeps, create-Keeps, patch-Keeps, plans-Keeps, get_by_code-Keeps,
  patch_plan-Keeps,
}
use iam_catalog_admin.Http.Context.{Request, Ctx}
use iam_catalog_admin.Http.Respond.{Response, answer}
use iam_catalog_admin.Http.Middleware.{
  Next, next, stop, identity_bridge, require_json_content_type, require_operator, require_system,
  parse_uuid_param,
}
use iam_catalog_admin.Http.Bind.{
  Gin, Auth, accepted, rejected, DepartmentCreateRequest, DepartmentPatchRequest, PlanPatchBody,
  bind_create, bind_patch, bind_plan_patch, raw_members,
}
use iam_catalog_admin.Http.Departments
use iam_catalog_admin.Http.Plans
use iam_catalog_admin.Http.Internal
use iam_catalog_admin.Http.Router.{
  Route, list_departments, get_department, create_department, patch_department, delete_department,
  list_plans, get_plan, patch_plan, internal_departments, internal_plans, Match, handler, no_method,
  no_route, Services, call, group, gate, then_call, then_gate, then_check, protected_with, chain,
  measured, matched, capped, serve, size_cap,
}
use iam_catalog_admin.Http.History.Handlers.{Handles, Promises, call-Handles}

module _ (p : Pgx) (k : Codec) (g : Gin) (s : Services) (h : Promises p k s) where
  then_call-Kept : (route : Route) (w : World) (n : Next) → Kept w (then_call p k g s route w n).1
  then_call-Kept route w (stop r) = Kept-refl w
  then_call-Kept route w (next x) = call-Handles p k g s h route x w

  then_gate-Kept : (route : Route) (w : World) (n : Next) → Kept w (then_gate p k g s route w n).1
  then_gate-Kept route w (stop r) = Kept-refl w
  then_gate-Kept route w (next x) = then_call-Kept route w (gate (group route) x)

  then_check-Kept : (route : Route) (w : World) (n : Next) → Kept w (then_check p k g s route w n).1
  then_check-Kept route w (stop r) = Kept-refl w
  then_check-Kept route w (next x) = then_gate-Kept route w (require_json_content_type x)

  protected_with-Kept :
      (route : Route) (r : Request) (w : World) (a : Auth)
      → Kept w (protected_with p k g s route r w a).1
  protected_with-Kept route r w (rejected answer) = Kept-refl w
  protected_with-Kept route r w (accepted rc) =
      then_check-Kept route w (identity_bridge k rc (record { request = r; identity = none }))

  measured-Kept : (route : Route) (r : Request) → Handles (measured p k g s route r)
  unfolding measured chain inc
  measured-Kept route r w = protected_with-Kept route r w (g.protect r)

  matched-Kept :
      (missing : Response) (r : Request) (w : World) (m : Match)
      → Kept w (matched p k g s missing r w m).1
  matched-Kept missing r w (handler route) = measured-Kept route r w
  matched-Kept missing r w no_method = Kept-refl w
  matched-Kept missing r w no_route = Kept-refl w

  capped-Kept :
      (missing : Response) (r : Request) (w : World) (o : Option Response)
      → Kept w (capped p k g s missing r w o).1
  capped-Kept missing r w none = matched-Kept missing r w _
  capped-Kept missing r w (some answer) = Kept-refl w

  serve-Kept : (missing : Response) (r : Request) (w : World) → Kept w (serve p k g s missing r w).1
  unfolding serve
  serve-Kept missing r w = capped-Kept missing r w (size_cap r)

-- The world after the requests of a list, one after the other.
abbrev pub served : Pgx → Codec → Gin → Services → Response → List Request → World → World
served p k g s missing [] w = w
served p k g s missing (r ∷ rs) w = served p k g s missing rs (serve p k g s missing r w).1

module _ {p : Pgx} (laws : IsPgx p) (k : Codec) (g : Gin) (s : Services) (missing : Response) where
  served-Kept :
      Promises p k s → (rs : List Request) (w : World) → Kept w (served p k g s missing rs w)
  served-Kept h [] w = Kept-refl w
  served-Kept h (r ∷ rs) w =
      let w' = (serve p k g s missing r w).1 in
      Kept-trans w w' (served p k g s missing rs w') (serve-Kept p k g s h missing r w)
        (served-Kept h rs w')

  promised :
      s.departments.repo ≡ department_repository p
      → s.plans.repo ≡ plan_repository p
      → ((c : Cache) → s.departments.cache ≡ some c → IsCache c)
      → ((c : Cache) → s.plans.cache ≡ some c → IsCache c)
      → Promises p k s
  promised repo plan_repo cache plan_cache = record {
    repo = rw repo (department_repository-Keeps laws);
    plan_repo = rw plan_repo (plan_repository-Keeps laws);
    cache = cache;
    plan_cache = plan_cache;
  }

  -- Take the services over the two repositories and caches that keep their contract. If the table of
  -- departments is well formed, then after any list of requests, one after the other, it is well
  -- formed, and each row that it had is there with its id, code, is_system and created_at, at a
  -- version no lower than before.
  pub served-IsCatalog :
      s.departments.repo ≡ department_repository p
      → s.plans.repo ≡ plan_repository p
      → ((c : Cache) → s.departments.cache ≡ some c → IsCache c)
      → ((c : Cache) → s.plans.cache ≡ some c → IsCache c)
      → (rs : List Request) (w : World) → IsCatalog w.departments
      → IsCatalog (served p k g s missing rs w).departments
        × Evolved w.departments (served p k g s missing rs w).departments
  served-IsCatalog repo plan_repo cache plan_cache rs w start =
      let kept = served-Kept (promised repo plan_repo cache plan_cache) rs w in
      (kept.0.catalog start, kept.0.evolved start)

  -- Take the services over the two repositories and caches that keep their contract. If the table of
  -- plans is well formed, then after any list of requests, one after the other, it is well formed,
  -- and has the same plans in the same places, each with its code and created_at, at a version no
  -- lower than before.
  pub served-IsPlanTable :
      s.departments.repo ≡ department_repository p
      → s.plans.repo ≡ plan_repository p
      → ((c : Cache) → s.departments.cache ≡ some c → IsCache c)
      → ((c : Cache) → s.plans.cache ≡ some c → IsCache c)
      → (rs : List Request) (w : World) → IsPlanTable w.plans
      → IsPlanTable (served p k g s missing rs w).plans
        × PlansEvolved w.plans (served p k g s missing rs w).plans
  served-IsPlanTable repo plan_repo cache plan_cache rs w start =
      let kept = served-Kept (promised repo plan_repo cache plan_cache) rs w in
      (kept.1.table start, kept.1.evolved start)
