-- ===== src/Http/Tests.antt =====
-- The theorems of the inbound surface at concrete inputs.
use iam_catalog_admin.Base.{
  ◌⊎◌, true, false, some, List, [], ◌∷◌, ◌≡◌, ◌≢◌, find, refl, arith, ◌↔◌, any, ◌==◌,
}
use Prim.Native.String as NativeString
use iam_catalog_admin.Json.{of_members, Members, str, get, put}
use iam_catalog_admin.Json.Decode.{to_map}
use iam_catalog_admin.Domain.Errors.{Error, new_error, err_department_not_found}
use iam_catalog_admin.Exec.{ok, pure}
use iam_catalog_admin.World.{World}
use iam_catalog_admin.Port.{Cache}
use iam_catalog_admin.Samples.{
  pgx-IsSqlstate, pgx, pgx-IsPgx, codec, gin, caller, request, services, world, working,
  world-IsCatalog, world-IsPlanTable, working-IsCache, departments_service, support,
}
use iam_catalog_admin.Postgres.Schema.Invariant.{IsCatalog, Evolved}
use iam_catalog_admin.Service.Department.Cached.{IsCache}
use iam_catalog_admin.Http.Context.{Request, PlatformContext}
use iam_catalog_admin.Http.Respond.{Response, reply, handle_error}
use iam_catalog_admin.Http.Middleware.{normalize_auth_errors, written}
use iam_catalog_admin.Http.Bind.{accepted}
use iam_catalog_admin.Http.Bind.{DepartmentCreateRequest}
use iam_catalog_admin.Http.Context.{Ctx}
use iam_catalog_admin.Domain.{Department}
use iam_catalog_admin.World.{inc, writes}
use iam_catalog_admin.Base.{suc, none, pos}
use iam_catalog_admin.Base.Text.{contains, is_blank, is_space}
use iam_catalog_admin.Postgres.Db.{with_pool}
use iam_catalog_admin.Postgres.Schema.{insert_department, insert_checked, department_checks}
use iam_catalog_admin.Postgres.Department as Repository
use iam_catalog_admin.Postgres.Department.{insert_from_tx}
use iam_catalog_admin.Service.Department as Service
use iam_catalog_admin.Http.Departments
use iam_catalog_admin.Http.Counting.{uncached, create-counts_twice}
use iam_catalog_admin.Http.Envelope.{IsEnvelope, handle_error-IsEnvelope}
use iam_catalog_admin.Http.Gates.{Refused, chain-refuses}
use iam_catalog_admin.Http.History.{served, served-IsCatalog, served-IsPlanTable}
use iam_catalog_admin.Postgres.PlanSchema.Invariant.{IsPlanTable, PlansEvolved}
use iam_catalog_admin.Http.History.Stale.{served-patch}
use iam_catalog_admin.Postgres.Schema.{department_at}
use iam_catalog_admin.Http.Outcomes.{expected_status, wrap_conn_err-status}
use iam_catalog_admin.Http.DocsSurface.{
  Handler, Page, bundled, swagger_theme_handler, sec_headers, IsSecured, docs_page, swagger_any,
  asset, typed-KeepsHeaders, docs_page-IsSecured,
}
use iam_catalog_admin.Base.{String}
use iam_catalog_admin.Base.Text.{has_suffix}
use iam_catalog_admin.Domain.Errors.{pg}
use iam_catalog_admin.Postgres.Db.{wrap_conn_err}
use iam_catalog_admin.Http.Router.{active}
use iam_catalog_admin.Http.Probes.{readyz-ready, docs-served}
use iam_catalog_admin.Http.Unauthorized.{IsKept, IsRewritten, normalize_auth_errors-object}
use iam_catalog_admin.Http.Router.{
  chain, create_department, delete_department, readyz, DocsConfig, docs, Docs,
}
use iam_catalog_admin.Http.Router as Router

abbrev deletion : Request
deletion = request "DELETE" "/api/v1/operator/departments/:id" "11111111"

member_lacks :
    (rc : PlatformContext)
    → accepted (some (caller ("member" ∷ []))) ≡ accepted (some rc)
    → any (λ t. t == "platform_operator") rc.roles ≡ false
unfolding any
member_lacks rc e = let roles : rc.roles ≡ "member" ∷ [] = ground (arith, e) in rw roles refl

chain-refuses_example :
    ((chain pgx codec (gin ("member" ∷ [])) services create_department deletion world).1 ≡ world)
    × Refused
        (gin ("member" ∷ []))
        deletion
        (chain pgx codec (gin ("member" ∷ [])) services create_department deletion world).0
chain-refuses_example =
    chain-refuses pgx codec (gin ("member" ∷ [])) services create_department "platform_operator"
      deletion world refl member_lacks

handle_error-IsEnvelope_example :
    IsEnvelope
      (handle_error pgx deletion (new_error err_department_not_found "department not found"))
handle_error-IsEnvelope_example =
    handle_error-IsEnvelope pgx deletion (new_error err_department_not_found "department not found")

abbrev not_found : Response
not_found = reply 404 []

held : (c : Cache) → some working ≡ some c → IsCache c
held c e = let same : working ≡ c = ground (arith, e) in rw same at working-IsCache

abbrev requests : List Request
requests = request "GET" "/api/v1/departments" "" ∷ deletion ∷ []

served-IsCatalog_example :
    IsCatalog
      (served pgx codec
        (gin ("platform_operator" ∷ []))
        services
        not_found
        requests
        world).departments
    × Evolved world.departments
        (served pgx codec
          (gin ("platform_operator" ∷ []))
          services
          not_found
          requests
          world).departments
served-IsCatalog_example =
    served-IsCatalog pgx-IsPgx codec (gin ("platform_operator" ∷ [])) services not_found refl refl
      held held requests world world-IsCatalog

served-IsPlanTable_example :
    IsPlanTable
      (served pgx codec (gin ("platform_operator" ∷ [])) services not_found requests world).plans
    × PlansEvolved world.plans
        (served pgx codec (gin ("platform_operator" ∷ [])) services not_found requests world).plans
served-IsPlanTable_example =
    served-IsPlanTable pgx-IsPgx codec (gin ("platform_operator" ∷ [])) services not_found refl refl
      held held requests world world-IsPlanTable

-- Support is at version 1, and the patch expects 0.
served-patch_example :
    (Service.patch pgx departments_service 8
      (some "Help desk")
      none
      (pos 0)
      (served pgx codec (gin ("platform_operator" ∷ [])) services not_found requests world)).0
    ≢ ok support
unfolding department_at find
served-patch_example =
    served-patch pgx-IsPgx codec (gin ("platform_operator" ∷ [])) services not_found refl refl held
      held requests world world-IsCatalog 8 support refl (pos 0) (omega arith)
      (λ e. ground (arith, e)) (some "Help desk") none support

readyz-ready_example :
    ((readyz (pure tt) working.health world).0.status ≡ 200)
    ↔ (((pure {S = World} {A = Unit {0}} tt world).0 ≡ ok tt) × ((working.health world).0 ≡ ok tt))
readyz-ready_example = readyz-ready (pure tt) working.health world

abbrev docs_config : DocsConfig
docs_config = record { environment = "production"; enabled = true; auth_token = "secret" }

docs-served_example :
    (docs docs_config "Bearer secret" ≡ Router.served)
    ↔ ((true ≡ true) × ("Bearer secret" ≡ NativeString.◌++◌ "Bearer " "secret"))
docs-served_example = docs-served docs_config "Bearer secret" refl refl

abbrev plain : Response
plain = reply 401 (("message", str "no token") ∷ [])

abbrev rewritten : Response
rewritten = reply 401 (
    ("message", str "no token")
    ∷ ("code", str "missing_identity_headers")
    ∷ ("error", str "missing_identity_headers")
    ∷ [])

abbrev plain_members : Members
plain_members = of_members (("message", str "no token") ∷ [])

rewriting : normalize_auth_errors plain ≡ written rewritten
unfolding normalize_auth_errors get put to_map
rewriting = refl

normalize_auth_errors-object_example : IsKept plain plain_members ⊎ IsRewritten plain plain_members
normalize_auth_errors-object_example = normalize_auth_errors-object plain plain_members refl

abbrev creation : DepartmentCreateRequest
creation = record { code = "LEGAL"; name = "Legal"; is_system = false }

abbrev operator_ctx : Ctx
operator_ctx = record { request = deletion; identity = none }

abbrev legal : Department
legal = record {
  id = 9;
  code = "LEGAL";
  name = "Legal";
  is_system = false;
  is_active = true;
  record_version = pos 1;
  created_at = 9;
  updated_at = 9;
}

created :
    (Service.create (uncached pgx-IsPgx codec (gin []) (pos 1)) "LEGAL" "Legal" false world).0
    ≡ ok legal
unfolding Service.create Service.invalidate_cache Repository.insert insert_from_tx with_pool inc
    insert_department insert_checked department_checks any is_blank is_space
created = refl

create-counts_twice_example :
    writes "departments" "insert"
      (Departments.create_bound pgx codec
        (gin [])
        (uncached pgx-IsPgx codec (gin []) (pos 1))
        operator_ctx
        world
        (some creation)).1
    ≡ suc (suc (writes "departments" "insert" world))
create-counts_twice_example =
    create-counts_twice pgx-IsPgx codec (gin []) (pos 1) operator_ctx creation world legal created

-- The database is being shut down.
abbrev shutdown : Error
shutdown = pg (record { sqlstate = "57P01"; constraint = ""; message = "terminating" })

shutdown_503 : expected_status shutdown ≡ 503
shutdown_503 = refl

wrap_conn_err-status_example :
    (handle_error pgx deletion (wrap_conn_err pgx shutdown)).status ≡ expected_status shutdown
unfolding contains
wrap_conn_err-status_example =
    wrap_conn_err-status pgx-IsSqlstate deletion shutdown refl (λ e. cc) (refl, refl)

-- A bundled file of Swagger UI, as gin-swagger writes it.
abbrev bundle : String → Handler
bundle path hs = record {
  status = 200;
  headers = put "Content-Type" "text/html" hs;
  content = bundled path;
}

abbrev theme_page : Page
theme_page = swagger_theme_handler (sec_headers [])

docs_page-IsSecured_example : IsSecured theme_page.headers
unfolding docs_page docs active has_suffix swagger_any swagger_theme_handler asset sec_headers put
docs_page-IsSecured_example =
    docs_page-IsSecured bundle (λ path. typed-KeepsHeaders "text/html" (bundle path) (λ hs. refl))
      docs_config "/swagger/index.css" "Bearer secret" theme_page refl
