-- ===== src/Http/Statuses.antt =====
-- The statuses that a handler answers with: the gate of the operator routes, and the results of the
-- services.
use iam_catalog_admin.Base.{ℕ, Option, none, some, ◌≡◌, refl, if◌then◌else◌}
use iam_catalog_admin.Domain.{Department}
use iam_catalog_admin.Domain.Errors.{Error}
use iam_catalog_admin.Exec.{Result, ok, err, on, fail}
use iam_catalog_admin.World.{World}
use iam_catalog_admin.Postgres.Pgx.{Pgx}
use iam_catalog_admin.Service.Department.{DepartmentService, invalidate_cache}
use iam_catalog_admin.Service.Department.Cached.{invalidate_cache-ok}
use iam_catalog_admin.Http.Context.{Ctx, RequestContext, is_operator}
use iam_catalog_admin.Http.Respond.{handle_error}

-- 401 without an identity, 403 for a caller who is no operator.
abbrev pub gate_status : Option RequestContext → ℕ → ℕ
gate_status none status = 401
gate_status (some rc) status = if is_operator rc then status else 403

abbrev pub map_error : {A : Type 0} → (Error → Error) → Result A → Result A
map_error f (ok d) = ok d
map_error f (err e) = err (f e)

-- The status for a result of a service.
abbrev pub status_after : {A : Type 0} → Pgx → ℕ → Ctx → Result A → ℕ
status_after p good c (ok d) = good
status_after p good c (err e) = (handle_error p c.request e).status

-- The deletion of the cache entry, which is advisory, leaves the result as it is.
pub invalidated :
    (s : DepartmentService) (f : Error → Error) (x : Result Department × World)
    → (on (invalidate_cache s) (λ e. fail (f e)) x).0 ≡ map_error f x.0
invalidated s f (ok d, w) = invalidate_cache-ok s d w
invalidated s f (err e, w) = refl
