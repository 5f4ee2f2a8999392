-- ===== src/Http/Router.antt =====
-- router.go: the route table, the middleware chain in its order, the probes and the docs gate.
use iam_catalog_admin.Base.{
  String, Bool, true, false, not, ◌&&◌, ◌||◌, Option, none, some, ℤ, pos, negsuc, List, [], ◌∷◌,
  ltb, ◌==◌, if◌then◌else◌,
}
use Prim.Native.String as NativeString
use iam_catalog_admin.Base.Text.{is_empty}
use iam_catalog_admin.Json.{num, str}
use iam_catalog_admin.Exec.{Result, ok, err, Exec}
use iam_catalog_admin.World.{World, inc, requests_total}
use iam_catalog_admin.Postgres.Pgx.{Pgx}
use iam_catalog_admin.Service.Codec.{Codec}
use iam_catalog_admin.Service.Department.{DepartmentService}
use iam_catalog_admin.Service.Plan.{PlanService}
use iam_catalog_admin.Http.Context.{Request, Ctx}
use iam_catalog_admin.Http.Respond.{Response, reply}
use iam_catalog_admin.Http.Middleware.{
  Next, next, stop, identity_bridge, require_json_content_type, require_operator_role,
  require_system_role, normalize_auth_errors, Written, written,
}
use iam_catalog_admin.Http.Bind.{Gin, Auth, accepted, rejected}
use iam_catalog_admin.Http.Departments
use iam_catalog_admin.Http.Plans
use iam_catalog_admin.Http.Internal

-- The registered API routes.
pub data Route : Type 0 where
  list_departments get_department create_department patch_department delete_department : Route
  list_plans get_plan patch_plan internal_departments internal_plans : Route

pub data Group : Type 0 where
  public operator internal : Group

-- registerAPIRoutes: the handlers by method and route template.
abbrev pub routes : List (String × String × Route)
routes =
    ("GET", "/api/v1/departments", list_departments)
    ∷ ("GET", "/api/v1/departments/:id", get_department)
    ∷ ("POST", "/api/v1/operator/departments", create_department)
    ∷ ("PATCH", "/api/v1/operator/departments/:id", patch_department)
    ∷ ("DELETE", "/api/v1/operator/departments/:id", delete_department)
    ∷ ("GET", "/api/v1/operator/plans", list_plans)
    ∷ ("GET", "/api/v1/operator/plans/:code", get_plan)
    ∷ ("PATCH", "/api/v1/operator/plans/:code", patch_plan)
    ∷ ("GET", "/api/v1/internal/departments", internal_departments)
    ∷ ("GET", "/api/v1/internal/plans", internal_plans)
    ∷ []

-- The group that a route is registered in.
abbrev pub group : Route → Group
group list_departments = public
group get_department = public
group create_department = operator
group patch_department = operator
group delete_department = operator
group list_plans = operator
group get_plan = operator
group patch_plan = operator
group internal_departments = internal
group internal_plans = internal

pub data Match : Type 0 where
  handler : Route → Match
  no_method no_route : Match

-- gin's choice: the handler of the method and template, 405 if only the template is known.
unfoldable pub select : List (String × String × Route) → Request → Bool → Match
select [] r known = if known then no_method else no_route
select ((method, template, route) ∷ rest) r known =
    let later = select rest r known in
    let seen = select rest r true in
    if template == r.route then if method == r.method then handler route else seen else later

-- The role gate of a group.
unfoldable pub gate : Group → Ctx → Next
unfolding require_operator_role require_system_role
gate public x = next x
gate operator x = require_operator_role x
gate internal x = require_system_role x

abbrev too_large : ℤ → Bool
too_large (pos n) = ltb 1048576 n
too_large (negsuc n) = false

unfoldable pub size_cap : Request → Option Response
size_cap r =
    if too_large r.content_length
    then some (
        reply 413 (
          ("error", str "request_entity_too_large")
          ∷ ("code", str "request_entity_too_large")
          ∷ ("message", str "request body must not exceed 1 MB")
          ∷ ("status", num (pos 413))
          ∷ []))
    else none

unfoldable pub method_not_allowed : Request → Response
method_not_allowed r = reply 405 (
    ("error", str "method_not_allowed")
    ∷ ("code", str "method_not_allowed")
    ∷ ("message", str (NativeString.◌++◌ r.method " is not allowed on this endpoint"))
    ∷ ("status", num (pos 405))
    ∷ [])

-- What NewRouter is given, beside the libraries.
pub record Services : Type 0 where
  pub departments : DepartmentService
  pub plans : PlanService

module _ (p : Pgx) (k : Codec) (g : Gin) (s : Services) where
  unfoldable pub call : Route → Ctx → World → Response × World
  call list_departments = Departments.list p k g s.departments
  call get_department = Departments.get_one p k g s.departments
  call create_department = Departments.create p k g s.departments
  call patch_department = Departments.patch p k g s.departments
  call delete_department = Departments.delete_blocked p k g s.departments
  call list_plans = Plans.list p k s.plans
  call get_plan = Plans.get_one p k s.plans
  call patch_plan = Plans.patch p k s.plans
  call internal_departments = Internal.departments p k g s.departments
  call internal_plans = Internal.plans p k g s.plans

  abbrev pub then_call : Route → World → Next → Response × World
  then_call route w (stop r) = (r, w)
  then_call route w (next x) = call route x w

  abbrev pub then_gate : Route → World → Next → Response × World
  then_gate route w (stop r) = (r, w)
  then_gate route w (next x) = then_call route w (gate (group route) x)

  abbrev pub then_check : Route → World → Next → Response × World
  then_check route w (stop r) = (r, w)
  then_check route w (next x) = then_gate route w (require_json_content_type x)

  abbrev pub protected_with : Route → Request → World → Auth → Response × World
  protected_with route r w (rejected answer) = (answer, w)
  protected_with route r w (accepted rc) =
      then_check route w (identity_bridge k rc (record { request = r; identity = none }))

  -- The chain of the /api/v1 group below the metrics: gincommon, the bridge, the content type, the
  -- role gate of the route's group, the handler.
  unfoldable pub chain : Route → Request → World → Response × World
  unfolding identity_bridge require_json_content_type gate call
  chain route r w = protected_with route r w (g.protect r)

  -- requestMetricsMiddleware: the terminal outcome of every request of the group is counted. The
  -- duration is not modelled.
  unfoldable pub measured : Route → Request → World → Response × World
  unfolding chain inc
  measured route r w =
      let (answer, w') = chain route r w in
      (
        answer,
        (inc (requests_total (if is_empty r.route then r.path else r.route) answer.status) w').1,
      )

  abbrev pub normalized : Response × World → Written × World
  normalized (answer, w) = (normalize_auth_errors answer, w)

  abbrev pub matched : Response → Request → World → Match → Response × World
  matched missing r w (handler route) = measured route r w
  matched missing r w no_method = (method_not_allowed r, w)
  matched missing r w no_route = (missing, w)

  abbrev pub capped : Response → Request → World → Option Response → Written × World
  capped missing r w (some answer) = (written answer, w)
  capped missing r w none = normalized (matched missing r w (select routes r false))

  -- A request, through the engine's middlewares and the route table, to what is written. `missing`
  -- is gin's answer to a path that no route has.
  unfoldable pub serve : Response → Request → World → Written × World
  unfolding select size_cap measured normalize_auth_errors method_not_allowed
  serve missing r w = capped missing r w (size_cap r)

abbrev pub check_cache : Result (Unit {0}) × World → Response × World
check_cache (err e, w) = (reply 503 (("status", str "not ready") ∷ ("cache", str "down") ∷ []), w)
check_cache (ok _, w) = (reply 200 (("status", str "ready") ∷ []), w)

abbrev pub check_postgres : Exec World (Unit {0}) → Result (Unit {0}) × World → Response × World
check_postgres cache (err e, w) =
    (reply 503 (("status", str "not ready") ∷ ("database", str "down") ∷ []), w)
check_postgres cache (ok _, w) = check_cache (cache w)

-- readyz: Postgres, then Valkey.
unfoldable pub readyz : Exec World (Unit {0}) → Exec World (Unit {0}) → World → Response × World
readyz postgres cache w = check_postgres cache (postgres w)

pub record DocsConfig : Type 0 where
  pub environment : String
  pub enabled : Bool
  pub auth_token : String

unfoldable pub active : DocsConfig → Bool
active d = not (d.environment == "production") || d.enabled

-- What a request to /swagger/*any meets: no such route, a 401, or the docs.
pub data Docs : Type 0 where
  unregistered unauthorized served : Docs

-- registerDocsRoutes, on the Authorization header
unfoldable pub docs : DocsConfig → String → Docs
unfolding active
docs d authorization =
    if not (active d)
    then unregistered
    else if d.environment == "production" && not (is_empty d.auth_token)
    then if authorization == NativeString.◌++◌ "Bearer " d.auth_token then served else unauthorized
    else served
