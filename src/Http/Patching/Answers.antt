-- ===== src/Http/Patching/Answers.antt =====
-- The statuses of CAT-2 by the request: identity, path parameter, both passes over the body, and the
-- row.
use iam_catalog_admin.Base.{
  ℕ, String, Bool, ◌||◌, Option, none, some, ℤ, ◌≡◌, ◌≢◌, refl, ◌∙◌, ap, inl, inr, Bool-cases,
  Option-cases, is_some, if◌then◌else◌,
}
use iam_catalog_admin.Base.Text.{is_empty}
use iam_catalog_admin.Json.{Map, get}
use iam_catalog_admin.Domain.{Department, Uuid}
use iam_catalog_admin.Domain.Errors.{
  Error, err_missing_identity, err_insufficient_role, new_error, with_details,
}
use iam_catalog_admin.Exec.{Result, ok, err}
use iam_catalog_admin.World.{World}
use iam_catalog_admin.Postgres.Pgx.{Pgx, IsPgx}
use iam_catalog_admin.Postgres.Undisturbed.{IsUndisturbed}
use iam_catalog_admin.Postgres.Schema.{department_at, next_version}
use iam_catalog_admin.Postgres.Schema.Invariant.{IsCatalog}
use iam_catalog_admin.Postgres.Department as Repository
use iam_catalog_admin.Postgres.Department.{update_some, department_repository}
use iam_catalog_admin.Postgres.Department.Deciding.{department_at-IsRow}
use iam_catalog_admin.Service.Codec.{Codec}
use iam_catalog_admin.Service.Department as Service
use iam_catalog_admin.Service.Department.{
  DepartmentService, invalidate_cache, translate, is_blank_name, patch_some,
}
use iam_catalog_admin.Http.Context.{Ctx, RequestContext, is_operator}
use iam_catalog_admin.Http.Middleware.{require_operator, parse_uuid_param}
use iam_catalog_admin.Http.Respond.{Response, handle_error, domain_error_status}
use iam_catalog_admin.Http.Bind.{Gin, DepartmentPatchRequest, bind_patch, raw_members}
use iam_catalog_admin.Http.Departments
use iam_catalog_admin.Http.Statuses.{gate_status, status_after, invalidated}
use iam_catalog_admin.Http.Patching.{
  IsClassified, IsReadable, row_status, update_some-result, expected-status,
}

module _ (p : Pgx) where
  -- 400 without a field or for a blank name.
  abbrev pub bound_status : World → Uuid → Option DepartmentPatchRequest → ℕ
  bound_status w id none = 400
  bound_status w id (some req) =
      if is_some req.name || is_some req.is_active
      then if is_blank_name p req.name then 400 else row_status req (department_at id w.departments)
      else 400

  -- 422 for a body that names an immutable field.
  abbrev pub body_status : World → Uuid → Option Map → Option DepartmentPatchRequest → ℕ
  body_status w id none b = 400
  body_status w id (some raw) b =
      if is_some (get "code" raw) || is_some (get "is_system" raw) then 422 else bound_status w id b

  abbrev pub patch_status : Codec → World → Ctx → Result Uuid → ℕ
  patch_status k w c (err e) = 400
  patch_status k w c (ok id) =
      body_status w id (raw_members c.request.body) (bind_patch c.request.body)

module _ {p : Pgx} (laws : IsPgx p) (u : IsUndisturbed p) (classes : IsClassified p) (k : Codec)
    (g : Gin) (s : DepartmentService) (repo : s.repo ≡ department_repository p) (w : World)
    (start : IsCatalog w.departments)
    (room : (id : Uuid) (old : Department)
      → department_at id w.departments ≡ some old
      → next_version old.record_version ≢ none) where
  -- The server can hold the name of the bound body.
  abbrev Fits : Ctx → Type 0
  Fits c =
      (req : DepartmentPatchRequest) → bind_patch c.request.body ≡ some req → IsReadable p req.name

  answered :
      (c : Ctx) (x : Result Department × World)
      → (Departments.patched p k g c x).0.status ≡ status_after p 200 c x.0
  answered c (ok d, w') = refl
  answered c (err e, w') = refl

  patch_some-status :
      (c : Ctx) (id : Uuid) (req : DepartmentPatchRequest)
      → (s.repo.update id req.name req.is_active req.record_version w).0
        ≡ (update_some p id req.name req.is_active req.record_version w).0
      → IsReadable p req.name
      → status_after p 200 c (patch_some p s id req.name req.is_active req.record_version w).0 ≡ (
          if is_blank_name p req.name then 400 else row_status req (department_at id w.departments))
  unfolding handle_error domain_error_status new_error
  patch_some-status c id req by_update fits = elim (Bool-cases (is_blank_name p req.name)) [
    | inl blank ↦ rw (blank, patch_some) refl
    | inr named ↦
        rw (named, patch_some)
          (ap (status_after p 200 c) (
              invalidated s (translate p)
                (s.repo.update id req.name req.is_active req.record_version w))
            ∙ (rw
                (
                  by_update,
                  update_some-result laws u classes id req.name req.is_active req.record_version w
                      fits,
                )
                (expected-status laws u classes c id req w (department_at id w.departments)
                  (λ old at.
                    (department_at-IsRow id w.departments {old = old} start at, room id old at))
                  named)))
  ]

  service-status :
      (c : Ctx) (id : Uuid) (name : Option String) (is_active : Option Bool) (version : ℤ)
      → IsReadable p name
      → status_after p 200 c (Service.patch p s id name is_active version w).0
        ≡ bound_status p w id
            (some (record { name = name; is_active = is_active; record_version = version }))
  unfolding Service.patch Repository.update handle_error domain_error_status new_error with_details
  service-status c id none none version fits = refl
  service-status c id (some n) is_active version fits =
      patch_some-status c id
        (record { name = some n; is_active = is_active; record_version = version }) (rw repo refl)
        fits
  service-status c id none (some b) version fits =
      patch_some-status c id (record { name = none; is_active = some b; record_version = version })
        (rw repo refl) fits

  bound-status :
      (c : Ctx) (id : Uuid) (b : Option DepartmentPatchRequest)
      → ((req : DepartmentPatchRequest) → b ≡ some req → IsReadable p req.name)
      → (Departments.patch_bound p k g s c w id b).0.status ≡ bound_status p w id b
  unfolding handle_error domain_error_status new_error
  bound-status c id none fits = refl
  bound-status c id (some req) fits =
      answered c (Service.patch p s id req.name req.is_active req.record_version w)
      ∙ service-status c id req.name req.is_active req.record_version (fits req refl)

  -- The two passes over the body.
  raw-status :
      (c : Ctx) (id : Uuid) (raw : Option Map)
      → Fits c
      → (elim (Departments.raw_error p k g raw) as (λ _. Response × World) [
        | some e ↦ (handle_error p c.request e, w)
        | none ↦ Departments.patch_bound p k g s c w id (bind_patch c.request.body)
      ]).0.status
        ≡ body_status p w id raw (bind_patch c.request.body)
  unfolding Departments.raw_error Departments.immutable handle_error domain_error_status new_error
      with_details
  raw-status c id none fits = refl
  raw-status c id (some raw) fits = elim (Option-cases (get "code" raw)) [
    | inr (v, code) ↦ rw code refl
    | inl no_code ↦ elim (Option-cases (get "is_system" raw)) [
      | inr (v, is_system) ↦ rw (no_code, is_system) refl
      | inl no_system ↦ rw (no_code, no_system) (bound-status c id (bind_patch c.request.body) fits)
    ]
  ]

  abbrev at_id : Ctx → Result Uuid → Response × World
  at_id c r = elim r [
    | err e ↦ (handle_error p c.request e, w)
    | ok id ↦ Departments.patch_at p k g s c w id
  ]

  id-status :
      (c : Ctx)
      → Fits c
      → (at_id c (parse_uuid_param k c.request.id)).0.status
        ≡ patch_status p k w c (parse_uuid_param k c.request.id)
  unfolding parse_uuid_param handle_error domain_error_status new_error with_details
  id-status c fits = elim (Bool-cases (is_empty c.request.id)) [
    | inl empty ↦ rw (parse_uuid_param, empty) refl
    | inr given ↦ elim (Option-cases (k.parse_uuid c.request.id)) [
      | inl malformed ↦ rw (parse_uuid_param, given, malformed) refl
      | inr (id, parsed) ↦
          rw (parse_uuid_param, given, parsed) (raw-status c id (raw_members c.request.body) fits)
    ]
  ]

  refused :
      (c : Ctx) (e : Error)
      → require_operator c ≡ some e
      → (Departments.patch p k g s c w).0.status ≡ (handle_error p c.request e).status
  unfolding Departments.patch
  refused c e h = rw (Departments.patch, h) refl

  admitted :
      (c : Ctx)
      → require_operator c ≡ none
      → Fits c
      → (Departments.patch p k g s c w).0.status
        ≡ patch_status p k w c (parse_uuid_param k c.request.id)
  unfolding Departments.patch
  admitted c h fits = rw (Departments.patch, h) (id-status c fits)

  -- Take the service over the repository, with any cache or none, and a well formed table whose
  -- versions have a next one, and a body whose name, if it binds and has one, the server can hold,
  -- and without number literals beyond the range of float64.
  -- If no connection and no transaction fails, then the handler of CAT-2
  -- answers 401 without an identity, 403 to a caller who is no operator, 400 for an id that is no
  -- UUID, 400 for a body that is no object or null, 422 for one that names code or is_system, 400
  -- for one that does not bind, sets no field or has a blank name, 404 without the row, 409 at
  -- another version, 422 for a new name or the retirement of a system department, and 200 otherwise.
  pub patch-status :
      (c : Ctx)
      → ((req : DepartmentPatchRequest)
          → bind_patch c.request.body ≡ some req
          → IsReadable p req.name)
      → (Departments.patch p k g s c w).0.status
        ≡ gate_status c.identity (patch_status p k w c (parse_uuid_param k c.request.id))
  unfolding require_operator handle_error domain_error_status new_error
  patch-status c fits = go c.identity refl
    where
      go :
          (o : Option RequestContext)
          → c.identity ≡ o
          → (Departments.patch p k g s c w).0.status
            ≡ gate_status o (patch_status p k w c (parse_uuid_param k c.request.id))
      go none e =
          refused c (new_error err_missing_identity "missing identity")
            (rw (e, require_operator) refl)
      go (some rc) e = elim (Bool-cases (is_operator rc)) [
        | inr other ↦ rw other (
            refused c (new_error err_insufficient_role "platform_operator required")
              (rw (e, other, require_operator) refl))
        | inl operator ↦ rw operator (admitted c (rw (e, operator, require_operator) refl) fits)
      ]
