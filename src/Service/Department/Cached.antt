-- ===== src/Service/Department/Cached.antt =====
-- The read-through cache of the department catalog: it is advisory, and invalidated by writes.
use iam_catalog_admin.Base.{
  String, Bool, true, false, Option, none, some, ℤ, List, [], ◌∷◌, ◌≡◌, refl, ◌∙◌, inl, inr, arith,
  Bool-cases, keep, if◌then◌else◌,
}
use iam_catalog_admin.Json.{get}
use iam_catalog_admin.Domain.{Department, Uuid}
use iam_catalog_admin.Exec.{Result, ok, err, Exec, on, pure, fail}
use iam_catalog_admin.World.{World, Bytes}
use iam_catalog_admin.Port.{Cache}
use iam_catalog_admin.Postgres.Pgx.{Pgx}
use iam_catalog_admin.Service.Codec.{Codec, unmarshal_departments, marshal_departments}
use iam_catalog_admin.Service.Department.{
  DepartmentService, list, list_all_cached, load_all, or_load, cached, departments_key, advisory,
  list_with, invalidate_cache, invalidate_with, patch, patch_some, translate, is_blank_name,
}

-- The contract of the cache port, of which `cache` of the world is the content: no call touches the
-- tables; a hit returns what is held; a write stores the value or changes nothing; a successful
-- deletion removes the key. Entries may expire at any time, so a held entry may be missed.
pub record IsCache (c : Cache) : Type 0 where
  pub get_held :
      (k : String) (w : World) (b : Bytes) → (c.get k w).0 ≡ ok (some b) → get k w.cache ≡ some b
  pub get_departments : (k : String) (w : World) → (c.get k w).1.departments ≡ w.departments
  pub set_departments :
      (k : String) (b : Bytes) (ttl : ℤ) (w : World)
      → (c.set k b ttl w).1.departments ≡ w.departments
  pub delete_departments :
      (ks : List String) (w : World) → (c.delete ks w).1.departments ≡ w.departments
  pub get_plans : (k : String) (w : World) → (c.get k w).1.plans ≡ w.plans
  pub set_plans :
      (k : String) (b : Bytes) (ttl : ℤ) (w : World) → (c.set k b ttl w).1.plans ≡ w.plans
  pub delete_plans : (ks : List String) (w : World) → (c.delete ks w).1.plans ≡ w.plans
  pub delete_removes :
      (k : String) (w : World)
      → (c.delete (k ∷ []) w).0 ≡ ok tt
      → get k (c.delete (k ∷ []) w).1.cache ≡ none

pub advisory-ok : {A B : Type 0} (m : Exec World A) (b : B) (w : World) → (advisory m b w).0 ≡ ok b
advisory-ok {A} {B} m b w = go (m w)
  where
    go : (x : Result A × World) → (on (λ _. pure b) (λ _. pure b) x).0 ≡ ok b
    go (ok a, w') = refl
    go (err e, w') = refl

pub invalidate_cache-ok :
    (s : DepartmentService) (d : Department) (w : World) → (invalidate_cache s d w).0 ≡ ok d
unfolding invalidate_cache
invalidate_cache-ok s d w = go s.cache
  where
    go : (o : Option Cache) → (invalidate_with o d w).0 ≡ ok d
    go none = refl
    go (some cache) = advisory-ok (cache.delete (departments_key ∷ [])) d w

on_pure :
    {A B : Type 0} (f : A → B) (x : Result A × World) {a : A}
    → x.0 ≡ ok a
    → (on (λ b. pure (f b)) fail x).0 ≡ ok (f a)
on_pure f (ok b, w) h = ground arith
on_pure f (err e, w) h = cc

module _ (k : Codec) (s : DepartmentService) (cache : Cache) where
  load_all-ok :
      (w : World) (rows : List Department)
      → (s.repo.list false w).0 ≡ ok rows
      → (load_all k s cache w).0 ≡ ok rows
  unfolding load_all
  load_all-ok w rows h = go (s.repo.list false w) h
    where
      go :
          (x : Result (List Department) × World)
          → x.0 ≡ ok rows
          → (on
              (λ all.
                advisory (cache.set departments_key (marshal_departments k all) s.cache_ttl) all)
              fail
              x).0
            ≡ ok rows
      go (ok all, w') e =
          advisory-ok (cache.set departments_key (marshal_departments k all) s.cache_ttl) all w' ∙ e
      go (err x, w') e = cc

  on_get :
      (rows : List Department) (x : Result (Option Bytes) × World)
      → ((b : Bytes) → x.0 ≡ ok (some b) → unmarshal_departments k b ≡ some rows)
      → (s.repo.list false x.1).0 ≡ ok rows
      → (on (λ raw. or_load k s cache (cached k raw)) (λ _. load_all k s cache) x).0 ≡ ok rows
  on_get rows (ok none, w) fresh lists = load_all-ok w rows lists
  on_get rows (ok (some b), w) fresh lists = rw (fresh b refl)
  on_get rows (err e, w) fresh lists = load_all-ok w rows lists

  list_with-ok :
      IsCache cache
      → (w : World) (rows : List Department) (o : Option Cache) → o ≡ some cache
      → ((b : Bytes) → get departments_key w.cache ≡ some b → unmarshal_departments k b ≡ some rows)
      → (s.repo.list false (cache.get departments_key w).1).0 ≡ ok rows
      → (list_with k s o w).0 ≡ ok rows
  list_with-ok laws w rows o has fresh lists = rw has (
      on_get rows (cache.get departments_key w)
        (λ b hit. fresh b (laws.get_held departments_key w b hit)) lists)

  -- Take a service with a cache that keeps its contract. If the entry that the cache holds, if any,
  -- decodes to the rows that the repository lists, then List answers with these rows, or the
  -- active ones among them, in a hit, a miss, an outage and a failed write-back alike.
  pub list_is_transparent :
      IsCache cache
      → (active_only : Bool) (w : World) (rows : List Department) → s.cache ≡ some cache
      → ((b : Bytes) → get departments_key w.cache ≡ some b → unmarshal_departments k b ≡ some rows)
      → (s.repo.list false (cache.get departments_key w).1).0 ≡ ok rows
      → (list k s active_only w).0 ≡ ok (if active_only then keep (λ d. d.is_active) rows else rows)
  unfolding list list_all_cached
  list_is_transparent laws active_only w rows has fresh lists =
      on_pure (λ all. if active_only then keep (λ d. d.is_active) all else all)
        (list_with k s s.cache w) (list_with-ok laws w rows s.cache has fresh lists)

module _ (p : Pgx) (s : DepartmentService) (cache : Cache) where
  deleted :
      (d : Department) (x : Result (Unit {0}) × World) (o : Option Bytes)
      → get departments_key x.1.cache ≡ o
      → get departments_key (on (λ _. pure d) (λ _. pure d) x).1.cache ≡ o
  deleted d (ok _, w) o h = h
  deleted d (err e, w) o h = h

  invalidate-removes :
      IsCache cache
      → ((w : World) → (cache.delete (departments_key ∷ []) w).0 ≡ ok tt)
      → (o : Option Cache) (d : Department) (w : World) → o ≡ some cache
      → get departments_key (invalidate_with o d w).1.cache ≡ none
  invalidate-removes laws deletes o d w has = rw has (
      deleted d (cache.delete (departments_key ∷ []) w) none
        (laws.delete_removes departments_key w (deletes w)))

  after_patch :
      IsCache cache
      → ((w : World) → (cache.delete (departments_key ∷ []) w).0 ≡ ok tt)
      → s.cache ≡ some cache
      → (x : Result Department × World) {d : Department}
      → (on (invalidate_cache s) (λ e. fail (translate p e)) x).0 ≡ ok d
      → get departments_key (on (invalidate_cache s) (λ e. fail (translate p e)) x).1.cache ≡ none
  unfolding invalidate_cache
  after_patch laws deletes has (ok a, w) h = invalidate-removes laws deletes s.cache a w has
  after_patch laws deletes has (err e, w) h = cc

  after_patch_some :
      IsCache cache
      → ((w : World) → (cache.delete (departments_key ∷ []) w).0 ≡ ok tt)
      → s.cache ≡ some cache
      → (id : Uuid) (name : Option String) (is_active : Option Bool) (version : ℤ) (w : World)
      → {d : Department} → (patch_some p s id name is_active version w).0 ≡ ok d
      → get departments_key (patch_some p s id name is_active version w).1.cache ≡ none
  after_patch_some laws deletes has id name is_active version w {d} h =
      elim (Bool-cases (is_blank_name p name)) [
        | inl blank ↦ absurd (refused blank)
        | inr given ↦
            rw (given, patch_some)
              (after_patch laws deletes has (s.repo.update id name is_active version w) {d = d}
                (rw (given, patch_some) at h))
      ]
    where
      refused : is_blank_name p name ≡ true → ⊥
      refused blank = ground arith

  -- If the cache keeps its contract and its deletions succeed, then after a successful Patch the
  -- cache holds no entry of the department catalog.
  pub patch_invalidates :
      IsCache cache
      → ((w : World) → (cache.delete (departments_key ∷ []) w).0 ≡ ok tt)
      → s.cache ≡ some cache
      → (id : Uuid) (name : Option String) (is_active : Option Bool) (version : ℤ) (w : World)
      → (d : Department) → (patch p s id name is_active version w).0 ≡ ok d
      → get departments_key (patch p s id name is_active version w).1.cache ≡ none
  unfolding patch
  patch_invalidates laws deletes has id none none version w d h = cc
  patch_invalidates laws deletes has id name is_active version w d h =
      after_patch_some laws deletes has id name is_active version w {d = d} h
