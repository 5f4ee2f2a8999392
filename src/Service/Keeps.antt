-- ===== src/Service/Keeps.antt =====
-- The services over repositories and a cache that keep the two tables.
use iam_catalog_admin.Base.{
  String, Bool, true, false, ◌||◌, Option, none, some, ℤ, List, [], ◌∷◌, ◌≡◌, refl, inl, inr,
  Bool-cases, if◌then◌else◌,
}
use iam_catalog_admin.Base.Text.{is_blank}
use iam_catalog_admin.Domain.{Department, Plan, PlanPatch, TenantPlan, Uuid}
use iam_catalog_admin.Domain.Errors.{Error}
use iam_catalog_admin.Exec.{Result, ok, Exec, pure, fail}
use iam_catalog_admin.World.{World}
use iam_catalog_admin.Port.{Cache}
use iam_catalog_admin.Postgres.Pgx.{Pgx}
use iam_catalog_admin.Postgres.Kept.{
  Kept-refl, Keeps, Keeps-same, Kept-on, KeepsDepartments, KeepsPlans,
}
use iam_catalog_admin.Service.Codec.{Codec, marshal_departments, marshal_plans}
use iam_catalog_admin.Service.Department
use iam_catalog_admin.Service.Department.{DepartmentService, advisory, departments_key}
use iam_catalog_admin.Service.Department.Cached.{IsCache}
use iam_catalog_admin.Service.Plan
use iam_catalog_admin.Service.Plan.{PlanService, plans_key}

pub answer_keeps : {A : Type 0} (r : Result A) → Keeps (λ w. (r, w))
answer_keeps r w = Kept-refl w

advisory-Keeps : {A B : Type 0} (m : Exec World A) (b : B) → Keeps m → Keeps (advisory m b)
advisory-Keeps {A} {B} m b h w =
    Kept-on {A = A} {B = B} (λ _. pure b) (λ _. pure b) w (m w) (h w) (λ _. answer_keeps (ok b))
      (λ _. answer_keeps (ok b))

Keeps-if :
    {A : Type 0} (b : Bool) (m n : Exec World A) → Keeps m → Keeps n → Keeps (if b then m else n)
Keeps-if true m n h k = h
Keeps-if false m n h k = k

module _ (k : Codec) (s : DepartmentService) (repo : KeepsDepartments s.repo) where
  load_all-Keeps : (cache : Cache) → IsCache cache → Keeps (Department.load_all k s cache)
  unfolding Department.load_all
  load_all-Keeps cache laws w =
      Kept-on _ fail w (s.repo.list false w) (repo.list false w)
        (λ all.
          advisory-Keeps (cache.set departments_key (marshal_departments k all) s.cache_ttl) all (
            Keeps-same (cache.set departments_key (marshal_departments k all) s.cache_ttl)
              (laws.set_departments departments_key (marshal_departments k all) s.cache_ttl)
              (laws.set_plans departments_key (marshal_departments k all) s.cache_ttl)))
        (λ e s'. Kept-refl s')

  or_load-Keeps :
      (cache : Cache)
      → IsCache cache
      → (o : Option (List Department)) → Keeps (Department.or_load k s cache o)
  or_load-Keeps cache laws none = load_all-Keeps cache laws
  or_load-Keeps cache laws (some ds) = answer_keeps (ok ds)

  list_with-Keeps :
      (o : Option Cache)
      → ((c : Cache) → o ≡ some c → IsCache c)
      → Keeps (Department.list_with k s o)
  list_with-Keeps none laws w = repo.list false w
  list_with-Keeps (some cache) laws w =
      Kept-on (λ raw. Department.or_load k s cache (Department.cached k raw))
        (λ _. Department.load_all k s cache) w (cache.get departments_key w)
        (Keeps-same (cache.get departments_key) ((laws cache refl).get_departments departments_key)
          ((laws cache refl).get_plans departments_key) w)
        (λ raw. or_load-Keeps cache (laws cache refl) (Department.cached k raw))
        (λ _. load_all-Keeps cache (laws cache refl))

module _ (k : Codec) (s : DepartmentService) (repo : KeepsDepartments s.repo)
    (laws : (c : Cache) → s.cache ≡ some c → IsCache c) where
  pub list-Keeps : (active_only : Bool) → Keeps (Department.list k s active_only)
  unfolding Department.list Department.list_all_cached
  list-Keeps active_only w =
      Kept-on _ fail w (Department.list_with k s s.cache w)
        (list_with-Keeps k s repo s.cache laws w) (λ all s'. Kept-refl s') (λ e s'. Kept-refl s')

  pub get-Keeps : (id : Uuid) → Keeps (Department.get s id)
  unfolding Department.get
  get-Keeps id = repo.find_by_id id

  invalidate_with-Keeps :
      (o : Option Cache)
      → ((c : Cache) → o ≡ some c → IsCache c)
      → (d : Department) → Keeps (Department.invalidate_with o d)
  invalidate_with-Keeps none held d = answer_keeps (ok d)
  invalidate_with-Keeps (some cache) held d =
      advisory-Keeps (cache.delete (departments_key ∷ [])) d (
        Keeps-same (cache.delete (departments_key ∷ []))
          ((held cache refl).delete_departments (departments_key ∷ []))
          ((held cache refl).delete_plans (departments_key ∷ [])))

  invalidate_cache-Keeps : (d : Department) → Keeps (Department.invalidate_cache s d)
  unfolding Department.invalidate_cache
  invalidate_cache-Keeps d = invalidate_with-Keeps s.cache laws d

  pub create-Keeps :
      (code name : String) (is_system : Bool) → Keeps (Department.create s code name is_system)
  unfolding Department.create
  create-Keeps code name is_system =
      Keeps-if (is_blank code || is_blank name) _ _ (λ w. Kept-refl w)
        (λ w.
          Kept-on (Department.invalidate_cache s) fail w _ (repo.insert _ w) invalidate_cache-Keeps
            (λ e s'. Kept-refl s'))

  module _ (p : Pgx) where
    patch_some-Keeps :
        (id : Uuid) (name : Option String) (is_active : Option Bool) (version : ℤ)
        → Keeps (Department.patch_some p s id name is_active version)
    patch_some-Keeps id name is_active version w =
        elim (Bool-cases (Department.is_blank_name p name)) [
          | inl blank ↦ rw (blank, Department.patch_some) (Kept-refl w)
          | inr given ↦
              rw (given, Department.patch_some)
                (Kept-on (Department.invalidate_cache s) (λ e. fail (Department.translate p e)) w
                  (s.repo.update id name is_active version w)
                  (repo.update id name is_active version w) invalidate_cache-Keeps
                  (λ e s'. Kept-refl s'))
        ]

    pub patch-Keeps :
        (id : Uuid) (name : Option String) (is_active : Option Bool) (version : ℤ)
        → Keeps (Department.patch p s id name is_active version)
    unfolding Department.patch
    patch-Keeps id none none version w = Kept-refl w
    patch-Keeps id name is_active version w = patch_some-Keeps id name is_active version w

module _ (k : Codec) (s : PlanService) (repo : KeepsPlans s.repo) where
  load_plans-Keeps : (cache : Cache) → IsCache cache → Keeps (Plan.load_all k s cache)
  unfolding Plan.load_all
  load_plans-Keeps cache laws w =
      Kept-on _ fail w (s.repo.list w) (repo.list w)
        (λ all. advisory-Keeps (cache.set plans_key (marshal_plans k all) s.cache_ttl) all (
          Keeps-same (cache.set plans_key (marshal_plans k all) s.cache_ttl)
            (laws.set_departments plans_key (marshal_plans k all) s.cache_ttl)
            (laws.set_plans plans_key (marshal_plans k all) s.cache_ttl)))
        (λ e s'. Kept-refl s')

  or_load_plans-Keeps :
      (cache : Cache) → IsCache cache → (o : Option (List Plan)) → Keeps (Plan.or_load k s cache o)
  or_load_plans-Keeps cache laws none = load_plans-Keeps cache laws
  or_load_plans-Keeps cache laws (some ps) = answer_keeps (ok ps)

  plans_with-Keeps :
      (o : Option Cache) → ((c : Cache) → o ≡ some c → IsCache c) → Keeps (Plan.list_with k s o)
  plans_with-Keeps none laws w = repo.list w
  plans_with-Keeps (some cache) laws w =
      Kept-on (λ raw. Plan.or_load k s cache (Plan.cached k raw)) (λ _. Plan.load_all k s cache) w
        (cache.get plans_key w)
        (Keeps-same (cache.get plans_key) ((laws cache refl).get_departments plans_key)
          ((laws cache refl).get_plans plans_key) w)
        (λ raw. or_load_plans-Keeps cache (laws cache refl) (Plan.cached k raw))
        (λ _. load_plans-Keeps cache (laws cache refl))

module _ (k : Codec) (s : PlanService) (repo : KeepsPlans s.repo)
    (laws : (c : Cache) → s.cache ≡ some c → IsCache c) where
  pub plans-Keeps : Keeps (Plan.list k s)
  unfolding Plan.list
  plans-Keeps = plans_with-Keeps k s repo s.cache laws

  pub get_by_code-Keeps : (code : TenantPlan) → Keeps (Plan.get_by_code s code)
  unfolding Plan.get_by_code
  get_by_code-Keeps code w = elim (Bool-cases (Plan.is_known code)) [
    | inl known ↦ rw (known, Plan.get_by_code) (repo.find_by_code code w)
    | inr other ↦ rw (other, Plan.get_by_code) (Kept-refl w)
  ]

  invalidate_plan-Keeps :
      (o : Option Cache)
      → ((c : Cache) → o ≡ some c → IsCache c)
      → (r : Plan) → Keeps (Plan.invalidate o r)
  invalidate_plan-Keeps none held r = answer_keeps (ok r)
  invalidate_plan-Keeps (some cache) held r = advisory-Keeps (cache.delete (plans_key ∷ [])) r (
      Keeps-same (cache.delete (plans_key ∷ []))
        ((held cache refl).delete_departments (plans_key ∷ []))
        ((held cache refl).delete_plans (plans_key ∷ [])))

  patch_unless-Keeps :
      (code : TenantPlan) (patch : PlanPatch) (o : Option Error)
      → Keeps (Plan.patch_unless s code patch o)
  patch_unless-Keeps code patch (some e) w = Kept-refl w
  patch_unless-Keeps code patch none w =
      Kept-on (Plan.invalidate s.cache) fail w (s.repo.update code patch w)
        (repo.update code patch w) (invalidate_plan-Keeps s.cache laws) (λ e s'. Kept-refl s')

  pub patch_plan-Keeps : (code : TenantPlan) (patch : PlanPatch) → Keeps (Plan.patch s code patch)
  unfolding Plan.patch
  patch_plan-Keeps code patch = patch_unless-Keeps code patch (Plan.patch_error code patch)
