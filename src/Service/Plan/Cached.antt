-- ===== src/Service/Plan/Cached.antt =====
-- The read-through cache of the plan catalog.
use iam_catalog_admin.Base.{Option, none, some, List, [], ◌∷◌, ◌≡◌, refl, ◌∙◌}
use iam_catalog_admin.Json.{get}
use iam_catalog_admin.Domain.{Plan, PlanPatch, TenantPlan}
use iam_catalog_admin.Domain.Errors.{Error}
use iam_catalog_admin.Exec.{Result, ok, err, on, pure, fail}
use iam_catalog_admin.World.{World, Bytes}
use iam_catalog_admin.Port.{Cache}
use iam_catalog_admin.Service.Codec.{Codec, unmarshal_plans, marshal_plans}
use iam_catalog_admin.Service.Department.{advisory}
use iam_catalog_admin.Service.Department.Cached.{IsCache, advisory-ok}
use iam_catalog_admin.Service.Plan.{
  PlanService, list, list_with, load_all, or_load, cached, plans_key, invalidate, patch,
  patch_unless, patch_error,
}

module _ (k : Codec) (s : PlanService) (cache : Cache) where
  load_all-ok :
      (w : World) (rows : List Plan)
      → (s.repo.list w).0 ≡ ok rows
      → (load_all k s cache w).0 ≡ ok rows
  unfolding load_all
  load_all-ok w rows h = go (s.repo.list w) h
    where
      go :
          (x : Result (List Plan) × World)
          → x.0 ≡ ok rows
          → (on
              (λ all. advisory (cache.set plans_key (marshal_plans k all) s.cache_ttl) all)
              fail
              x).0
            ≡ ok rows
      go (ok all, w') e =
          advisory-ok (cache.set plans_key (marshal_plans k all) s.cache_ttl) all w' ∙ e
      go (err x, w') e = cc

  on_get :
      (rows : List Plan) (x : Result (Option Bytes) × World)
      → ((b : Bytes) → x.0 ≡ ok (some b) → unmarshal_plans k b ≡ some rows)
      → (s.repo.list x.1).0 ≡ ok rows
      → (on (λ raw. or_load k s cache (cached k raw)) (λ _. load_all k s cache) x).0 ≡ ok rows
  on_get rows (ok none, w) fresh lists = load_all-ok w rows lists
  on_get rows (ok (some b), w) fresh lists = rw (fresh b refl)
  on_get rows (err e, w) fresh lists = load_all-ok w rows lists

  list_with-ok :
      IsCache cache
      → (w : World) (rows : List Plan) (o : Option Cache) → o ≡ some cache
      → ((b : Bytes) → get plans_key w.cache ≡ some b → unmarshal_plans k b ≡ some rows)
      → (s.repo.list (cache.get plans_key w).1).0 ≡ ok rows
      → (list_with k s o w).0 ≡ ok rows
  list_with-ok laws w rows o has fresh lists = rw has (
      on_get rows (cache.get plans_key w) (λ b hit. fresh b (laws.get_held plans_key w b hit))
        lists)

  -- Take a service with a cache that keeps its contract. If the entry that the cache holds, if any,
  -- decodes to the rows that the repository lists, then List answers with these rows in a hit, a
  -- miss, an outage and a failed write-back alike.
  pub plans_list_is_transparent :
      IsCache cache
      → (w : World) (rows : List Plan) → s.cache ≡ some cache
      → ((b : Bytes) → get plans_key w.cache ≡ some b → unmarshal_plans k b ≡ some rows)
      → (s.repo.list (cache.get plans_key w).1).0 ≡ ok rows
      → (list k s w).0 ≡ ok rows
  unfolding list
  plans_list_is_transparent laws w rows has fresh lists =
      list_with-ok laws w rows s.cache has fresh lists

module _ (s : PlanService) (cache : Cache) where
  deleted :
      (r : Plan) (x : Result (Unit {0}) × World)
      → get plans_key x.1.cache ≡ none
      → get plans_key (on (λ _. pure r) (λ _. pure r) x).1.cache ≡ none
  deleted r (ok _, w) h = h
  deleted r (err e, w) h = h

  invalidate-removes :
      IsCache cache
      → ((w : World) → (cache.delete (plans_key ∷ []) w).0 ≡ ok tt)
      → s.cache ≡ some cache
      → (r : Plan) (w : World) → get plans_key (invalidate s.cache r w).1.cache ≡ none
  invalidate-removes laws deletes has r w =
      rw has
        (deleted r (cache.delete (plans_key ∷ []) w) (laws.delete_removes plans_key w (deletes w)))

  after_update :
      IsCache cache
      → ((w : World) → (cache.delete (plans_key ∷ []) w).0 ≡ ok tt)
      → s.cache ≡ some cache
      → (x : Result Plan × World) {r : Plan} → (on (invalidate s.cache) fail x).0 ≡ ok r
      → get plans_key (on (invalidate s.cache) fail x).1.cache ≡ none
  after_update laws deletes has (ok a, w) h = invalidate-removes laws deletes has a w
  after_update laws deletes has (err e, w) h = cc

  unless-removes :
      IsCache cache
      → ((w : World) → (cache.delete (plans_key ∷ []) w).0 ≡ ok tt)
      → s.cache ≡ some cache
      → (code : TenantPlan) (p : PlanPatch) (o : Option Error) (w : World) {r : Plan}
      → (patch_unless s code p o w).0 ≡ ok r
      → get plans_key (patch_unless s code p o w).1.cache ≡ none
  unless-removes laws deletes has code p (some e) w h = cc
  unless-removes laws deletes has code p none w {r} h =
      after_update laws deletes has (s.repo.update code p w) {r = r} h

  -- If the cache keeps its contract and its deletions succeed, then after a successful Patch the
  -- cache holds no entry of the plan catalog.
  pub plan_patch_invalidates :
      IsCache cache
      → ((w : World) → (cache.delete (plans_key ∷ []) w).0 ≡ ok tt)
      → s.cache ≡ some cache
      → (code : TenantPlan) (p : PlanPatch) (w : World) (r : Plan) → (patch s code p w).0 ≡ ok r
      → get plans_key (patch s code p w).1.cache ≡ none
  unfolding patch
  plan_patch_invalidates laws deletes has code p w r h =
      unless-removes laws deletes has code p (patch_error code p) w {r = r} h
