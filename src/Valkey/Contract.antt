-- ===== src/Valkey/Contract.antt =====
-- The Valkey adapter keeps the contract of the cache port.
use iam_catalog_admin.Base.{String, none, some, ℤ, List, [], ◌∷◌, ◌≡◌, refl, ◌∙◌, arith}
use iam_catalog_admin.Json as Json
use iam_catalog_admin.Domain.Errors.{
  Error, domain, pg, no_rows, redis_nil, max_bytes, other, canceled, deadline_exceeded,
}
use iam_catalog_admin.Exec.{Result, ok, err, on, pure, ◌>>=◌}
use iam_catalog_admin.World.{World, Bytes, inc, cache_hits}
use iam_catalog_admin.Service.Department.Cached.{IsCache}
use iam_catalog_admin.Valkey.{Client, get, set, delete, miss, valkey_cache}

-- The documented behaviour of GET, SET and DEL, of which `cache` of the world is the keyspace.
pub record IsClient (c : Client) : Type 0 where
  pub get_held :
      (k : String) (w : World) (b : Bytes) → (c.get k w).0 ≡ ok b → Json.get k w.cache ≡ some b
  pub get_departments : (k : String) (w : World) → (c.get k w).1.departments ≡ w.departments
  pub set_departments :
      (k : String) (b : Bytes) (ttl : ℤ) (w : World)
      → (c.set k b ttl w).1.departments ≡ w.departments
  pub del_departments : (ks : List String) (w : World) → (c.del ks w).1.departments ≡ w.departments
  pub get_plans : (k : String) (w : World) → (c.get k w).1.plans ≡ w.plans
  pub set_plans :
      (k : String) (b : Bytes) (ttl : ℤ) (w : World) → (c.set k b ttl w).1.plans ≡ w.plans
  pub del_plans : (ks : List String) (w : World) → (c.del ks w).1.plans ≡ w.plans
  pub del_removes :
      (k : String) (w : World)
      → (c.del (k ∷ []) w).0 ≡ ok tt
      → Json.get k (c.del (k ∷ []) w).1.cache ≡ none

module _ (c : Client) where
  miss-not_hit :
      (k : String) (e : Error) (w : World) (b : Bytes) → (miss c k e w).0 ≡ ok (some b) → ⊥
  unfolding inc
  miss-not_hit k redis_nil w b h = ground (arith)
  miss-not_hit k (domain d) w b h = cc (h)
  miss-not_hit k (pg d) w b h = cc (h)
  miss-not_hit k no_rows w b h = cc (h)
  miss-not_hit k max_bytes w b h = cc (h)
  miss-not_hit k canceled w b h = cc (h)
  miss-not_hit k deadline_exceeded w b h = cc (h)
  miss-not_hit k (other d) w b h = cc (h)

  miss-departments :
      (k : String) (e : Error) (w : World) → (miss c k e w).1.departments ≡ w.departments
  unfolding inc
  miss-departments k redis_nil w = refl
  miss-departments k (domain d) w = refl
  miss-departments k (pg d) w = refl
  miss-departments k no_rows w = refl
  miss-departments k max_bytes w = refl
  miss-departments k canceled w = refl
  miss-departments k deadline_exceeded w = refl
  miss-departments k (other d) w = refl

  miss-plans : (k : String) (e : Error) (w : World) → (miss c k e w).1.plans ≡ w.plans
  unfolding inc
  miss-plans k redis_nil w = refl
  miss-plans k (domain d) w = refl
  miss-plans k (pg d) w = refl
  miss-plans k no_rows w = refl
  miss-plans k max_bytes w = refl
  miss-plans k canceled w = refl
  miss-plans k deadline_exceeded w = refl
  miss-plans k (other d) w = refl

  pub hit-held :
      (k : String) (x : Result Bytes × World) (b : Bytes)
      → (on (λ val. inc (cache_hits k) >>= λ _. pure (some val)) (miss c k) x).0 ≡ ok (some b)
      → x.0 ≡ ok b
  unfolding inc
  hit-held k (ok val, w) b h = ground (arith)
  hit-held k (err e, w) b h = absurd (miss-not_hit k e w b h)

  got-departments :
      (k : String) (x : Result Bytes × World)
      → (on (λ val. inc (cache_hits k) >>= λ _. pure (some val)) (miss c k) x).1.departments
        ≡ x.1.departments
  unfolding inc
  got-departments k (ok val, w) = refl
  got-departments k (err e, w) = miss-departments k e w

  got-plans :
      (k : String) (x : Result Bytes × World)
      → (on (λ val. inc (cache_hits k) >>= λ _. pure (some val)) (miss c k) x).1.plans ≡ x.1.plans
  unfolding inc
  got-plans k (ok val, w) = refl
  got-plans k (err e, w) = miss-plans k e w

  delete-departments :
      IsClient c → (ks : List String) (w : World) → (delete c ks w).1.departments ≡ w.departments
  unfolding delete
  delete-departments laws [] w = refl
  delete-departments laws (k ∷ ks) w = laws.del_departments (k ∷ ks) w

  delete-plans : IsClient c → (ks : List String) (w : World) → (delete c ks w).1.plans ≡ w.plans
  unfolding delete
  delete-plans laws [] w = refl
  delete-plans laws (k ∷ ks) w = laws.del_plans (k ∷ ks) w

  -- If the client's GET, SET and DEL behave as documented, then the adapter keeps the contract of
  -- the cache port, on which the services rely.
  pub valkey_cache-IsCache : IsClient c → IsCache (valkey_cache c)
  unfolding get set delete
  valkey_cache-IsCache laws = record {
    get_held = λ k w b h. laws.get_held k w b (hit-held k (c.get k w) b h);
    get_departments = λ k w. got-departments k (c.get k w) ∙ laws.get_departments k w;
    set_departments = λ k b ttl w. laws.set_departments k b ttl w;
    delete_departments = λ ks w. delete-departments laws ks w;
    get_plans = λ k w. got-plans k (c.get k w) ∙ laws.get_plans k w;
    set_plans = λ k b ttl w. laws.set_plans k b ttl w;
    delete_plans = λ ks w. delete-plans laws ks w;
    delete_removes = λ k w h. laws.del_removes k w h;
  }
