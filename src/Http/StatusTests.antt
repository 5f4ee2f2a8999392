-- ===== src/Http/StatusTests.antt =====
-- The statuses of CAT-1 and CAT-2 at concrete inputs.
use mathlib.Core.Path.{subst}
use iam_catalog_admin.Base.{false, some, none, pos, [], ◌∷◌, ◌≡◌, ◌≢◌, refl, arith, find}
use iam_catalog_admin.Base.Text.{contains}
use iam_catalog_admin.Json.{num, str, obj, of_members, Map}
use iam_catalog_admin.Domain.{Department, Uuid}
use iam_catalog_admin.Samples.{
  pgx, pgx-IsPgx, pgx-IsUndisturbed, codec, gin, request, world, world-IsCatalog,
  departments_service,
}
use iam_catalog_admin.Postgres.Db as Db
use iam_catalog_admin.Postgres.Schema.{department_at, next_version}
use iam_catalog_admin.Http.Context.{Ctx, RequestContext, document}
use iam_catalog_admin.Http.Bind.{
  DepartmentCreateRequest, DepartmentPatchRequest, bind_patch, bind_create,
}
use iam_catalog_admin.Http.Middleware.{parse_uuid_param}
use iam_catalog_admin.Http.Departments
use iam_catalog_admin.Http.Statuses.{gate_status}
use iam_catalog_admin.Http.Creating as Creating
use iam_catalog_admin.Http.Creating.{IsStorable, create-status}
use iam_catalog_admin.Http.Patching.{IsReadable, IsClassified}
use iam_catalog_admin.Http.Patching.Answers as Answers
use iam_catalog_admin.Http.Patching.Answers.{patch-status}

abbrev pub operator : RequestContext
operator = record {
  user_id = 1;
  tenant_id = 2;
  roles = "platform_operator" ∷ [];
  client_ip = "10.0.0.1";
  user_agent = "test";
}

-- A request of an operator for the department 7, which is a system department.
abbrev with_body : Map → Ctx
with_body m = record {
  request = record (request "PATCH" "/api/v1/operator/departments/:id" "1111111") {
    body = document (obj (of_members m));
  };
  identity = some operator;
}

abbrev creation : Ctx
creation = with_body (("code", str "FINANCE") ∷ ("name", str "Money") ∷ [])

creation_fits :
    (req : DepartmentCreateRequest)
    → bind_create (gin []) creation.request.body ≡ some req
    → IsStorable pgx req.code req.name
unfolding bind_create
creation_fits req h =
    let same : record { code = "FINANCE"; name = "Money"; is_system = false } ≡ req =
      ground (arith, h) in
    subst (λ (r : DepartmentCreateRequest). IsStorable pgx r.code r.name) same
      (record { has_code = refl; has_name = refl; has_index = refl })

create-status_example :
    (Departments.create pgx codec (gin []) departments_service creation world).0.status
    ≡ gate_status creation.identity
        (Creating.bound_status pgx world (bind_create (gin []) creation.request.body))
create-status_example =
    create-status pgx-IsPgx pgx-IsUndisturbed codec (gin []) departments_service refl creation world
      (λ req h. creation_fits req h)

pgx-IsClassified : IsClassified pgx
unfolding contains Db.is_operator_or_system_error
pgx-IsClassified = record { of_domain = λ e. refl; of_active = refl; of_name = refl }

room :
    (id : Uuid) (old : Department)
    → department_at id world.departments ≡ some old
    → next_version old.record_version ≢ none
unfolding department_at find
room id old h e = ground arith

abbrev renaming : Ctx
renaming = with_body (("name", str "Money") ∷ ("record_version", num (pos 1)) ∷ [])

renaming_fits :
    (req : DepartmentPatchRequest)
    → bind_patch renaming.request.body ≡ some req
    → IsReadable pgx req.name
unfolding bind_patch
renaming_fits req h =
    let same : record { name = some "Money"; is_active = none; record_version = pos 1 } ≡ req =
      ground (arith, h) in
    subst (λ (r : DepartmentPatchRequest). IsReadable pgx r.name) same refl

patch-status_example :
    (Departments.patch pgx codec (gin []) departments_service renaming world).0.status
    ≡ gate_status renaming.identity
        (Answers.patch_status pgx codec world renaming (parse_uuid_param codec renaming.request.id))
patch-status_example =
    patch-status pgx-IsPgx pgx-IsUndisturbed pgx-IsClassified codec (gin []) departments_service
      refl world world-IsCatalog room renaming renaming_fits
