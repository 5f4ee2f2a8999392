-- ===== src/Service/Department/Threads/Contract.antt =====
-- What requests side by side rely on: the cache and the repository that they share.
use iam_catalog_admin.Base.{String, Bool, false, Option, none, some, ℤ, List, [], ◌∷◌, ◌≡◌, ◌⊎◌}
use iam_catalog_admin.Json.{get}
use iam_catalog_admin.Domain.{Department, Uuid}
use iam_catalog_admin.Exec.{ok}
use iam_catalog_admin.World.{World, Bytes}
use iam_catalog_admin.Port.{Cache, DepartmentRepository}

-- The contract of the cache port for one key: a call leaves its entry as it was, or stores the bytes
-- given, or the entry goes away.
pub record IsStore (c : Cache) : Type 0 where
  pub get_held :
      (k : String) (w : World) (b : Bytes) → (c.get k w).0 ≡ ok (some b) → get k w.cache ≡ some b
  pub get_keeps :
      (k : String) (w : World)
      → (get k (c.get k w).1.cache ≡ get k w.cache) ⊎ (get k (c.get k w).1.cache ≡ none)
  pub set_stores :
      (k : String) (b : Bytes) (ttl : ℤ) (w : World)
      → (get k (c.set k b ttl w).1.cache ≡ get k w.cache)
        ⊎ (get k (c.set k b ttl w).1.cache ≡ some b)
  pub delete_keeps :
      (k : String) (w : World)
      → (get k (c.delete (k ∷ []) w).1.cache ≡ get k w.cache)
        ⊎ (get k (c.delete (k ∷ []) w).1.cache ≡ none)

-- The contract of the repository, where `content` is what the table shows: List answers it, and
-- none of List, Insert and Update touches the cache.
pub record IsSource (content : World → List Department) (r : DepartmentRepository) : Type 0 where
  pub list_shows :
      (w : World) (rows : List Department) → (r.list false w).0 ≡ ok rows → rows ≡ content w
  pub list_cache : (w : World) → (r.list false w).1.cache ≡ w.cache
  pub insert_cache : (d : Department) (w : World) → (r.insert d w).1.cache ≡ w.cache
  pub update_cache :
      (id : Uuid) (name : Option String) (is_active : Option Bool) (version : ℤ) (w : World)
      → (r.update id name is_active version w).1.cache ≡ w.cache
