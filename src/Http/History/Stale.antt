-- ===== src/Http/History/Stale.antt =====
-- A version that the row of a department has passed is never accepted again, whatever requests are
-- served in between.
use iam_catalog_admin.Base.{
  ap, String, Bool, Option, none, some, ℤ, pos, negsuc, List, ◌≡◌, ◌≢◌, refl, ◌∙◌, sym, inl, inr,
  arith, Bool-cases, ◌≤ℤ◌,
}
use iam_catalog_admin.Domain.{Department, Uuid}
use iam_catalog_admin.Domain.Errors.{Error}
use iam_catalog_admin.Exec.{Result, ok, err, on, fail}
use iam_catalog_admin.World.{World}
use iam_catalog_admin.Port.{Cache}
use iam_catalog_admin.Postgres.Pgx.{Pgx, IsPgx}
use iam_catalog_admin.Postgres.Schema.{department_at}
use iam_catalog_admin.Postgres.Schema.Invariant.{IsCatalog}
use iam_catalog_admin.Postgres.Department.{department_repository, update}
use iam_catalog_admin.Postgres.Department.Versions.{
  AtVersion, department_at-Evolved, update_some-AtVersion,
}
use iam_catalog_admin.Postgres.Plan.{plan_repository}
use iam_catalog_admin.Service.Codec.{Codec}
use iam_catalog_admin.Service.Department.{
  DepartmentService, patch, patch_some, invalidate_cache, is_blank_name, translate,
}
use iam_catalog_admin.Service.Department.Cached.{IsCache}
use iam_catalog_admin.Http.Bind.{Gin}
use iam_catalog_admin.Http.Context.{Request}
use iam_catalog_admin.Http.Respond.{Response}
use iam_catalog_admin.Http.Router.{Services}
use iam_catalog_admin.Http.History.{served, served-IsCatalog}

-- A version between two equal ones equals them.
passed : (old a b : ℤ) → old ≤ℤ a → old ≢ a → a ≤ℤ b → b ≡ old → ⊥
passed old a b h apart k same = apart (antisym old a h (rw same at k))
  where
    antisym : (x y : ℤ) → x ≤ℤ y → y ≤ℤ x → x ≡ y
    antisym (pos m) (pos n) h k = ap pos (omega (arith, h, k))
    antisym (pos m) (negsuc n) h k = absurd (omega (arith, h))
    antisym (negsuc m) (pos n) h k = absurd (omega (arith, k))
    antisym (negsuc m) (negsuc n) h k = ap negsuc (omega (arith, h, k))

module _ {p : Pgx} (laws : IsPgx p) (s : DepartmentService)
    (repo : s.repo ≡ department_repository p) where
  answered :
      (f : Error → Error) (x : Result Department × World) (d : Department)
      → (on (invalidate_cache s) (λ e. fail (f e)) x).0 ≡ ok d
      → (b : Department) × (x.0 ≡ ok b)
  answered f (ok b, w) d h = (b, refl)
  answered f (err e, w) d h = cc

  patch_some-AtVersion :
      (id : Uuid) (name : Option String) (is_active : Option Bool) (version : ℤ) (w : World)
      (d : Department)
      → ((v : World) (b : Department)
          → (s.repo.update id name is_active version v).0 ≡ ok b
          → AtVersion id version v)
      → (patch_some p s id name is_active version w).0 ≡ ok d
      → AtVersion id version w
  patch_some-AtVersion id name is_active version w d k h =
      elim (Bool-cases (is_blank_name p name)) [
        | inl blank ↦ let failed = rw (blank, patch_some) at h in cc (failed)
        | inr given ↦
            let (b, done) =
              answered (translate p) (s.repo.update id name is_active version w) d
                (rw (given, patch_some) at h) in
            k w b done
      ]

  patch-AtVersion :
      (id : Uuid) (name : Option String) (is_active : Option Bool) (version : ℤ) (w : World)
      (d : Department)
      → (patch p s id name is_active version w).0 ≡ ok d
      → AtVersion id version w
  unfolding patch update
  patch-AtVersion id none none version w d h = cc
  patch-AtVersion id (some n) is_active version w d h =
      patch_some-AtVersion id (some n) is_active version w d
        (rw repo (update_some-AtVersion laws id (some n) is_active version)) h
  patch-AtVersion id none (some b) version w d h =
      patch_some-AtVersion id none (some b) version w d
        (rw repo (update_some-AtVersion laws id none (some b) version)) h

module _ {p : Pgx} (laws : IsPgx p) (k : Codec) (g : Gin) (s : Services) (missing : Response) where
  -- Take the services over the two repositories and caches that keep their contract, and a well formed
  -- table in which a department's version is above a given one. Then after any list of requests, one
  -- after the other, a Patch of that department that expects the given version does not succeed,
  -- whatever it sets.
  pub served-patch :
      s.departments.repo ≡ department_repository p
      → s.plans.repo ≡ plan_repository p
      → ((c : Cache) → s.departments.cache ≡ some c → IsCache c)
      → ((c : Cache) → s.plans.cache ≡ some c → IsCache c)
      → (rs : List Request) (w : World) → IsCatalog w.departments
      → (id : Uuid) (cur : Department) → department_at id w.departments ≡ some cur
      → (version : ℤ) → version ≤ℤ cur.record_version
      → version ≢ cur.record_version
      → (name : Option String) (is_active : Option Bool) (d : Department)
      → (patch p s.departments id name is_active version (served p k g s missing rs w)).0 ≢ ok d
  served-patch repo plan_repo cache plan_cache rs w start id cur at version low apart name is_active
        d done =
      let w' = served p k g s missing rs w in
      let (catalog, evolved) =
        served-IsCatalog laws k g s missing repo plan_repo cache plan_cache rs w start in
      let (b, found, later) = department_at-Evolved id w.departments w'.departments evolved at in
      let (old, met, here) =
        patch-AtVersion laws s.departments repo id name is_active version w' d done in
      let same : some old ≡ some b = sym met ∙ found in
      let moved : b.record_version ≡ version = ground (arith, same, here) in
      passed version cur.record_version b.record_version low apart later.version moved
