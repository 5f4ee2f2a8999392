-- ===== src/Valkey.antt =====
-- internal/adapter/outbound/valkey/cache.go: the cache port over a Redis client.
pub mod Contract
pub mod Memory
pub mod Options
use iam_catalog_admin.Base.{String, Option, none, some, ℤ, List, [], ◌∷◌}
use iam_catalog_admin.Domain.Errors.{Error, redis_nil}
use iam_catalog_admin.Exec.{Result, ok, err, Exec, pure, fail, on, handle, ◌>>=◌}
use iam_catalog_admin.World.{World, Bytes, inc, cache_hits, cache_misses}
use iam_catalog_admin.Port.{Cache}

-- The client's commands: GET answers redis.Nil for a key that it does not hold.
pub record Client : Type 0 where
  pub get : String → Exec World Bytes
  pub set : String → Bytes → ℤ → Exec World (Unit {0})
  pub del : List String → Exec World (Unit {0})
  pub ping : Exec World (Unit {0})

module _ (client : Client) where
  abbrev pub miss : String → Error → Exec World (Option Bytes)
  miss key redis_nil = inc (cache_misses key) >>= λ _. pure none
  miss key e = fail e

  unfoldable pub get : String → Exec World (Option Bytes)
  unfolding inc
  get key =
      handle (client.get key) (λ val. inc (cache_hits key) >>= λ _. pure (some val)) (miss key)

  unfoldable pub set : String → Bytes → ℤ → Exec World (Unit {0})
  set key value ttl = client.set key value ttl

  -- The log line of a failure is not modelled.
  unfoldable pub delete : List String → Exec World (Unit {0})
  delete [] = pure tt
  delete (key ∷ keys) = client.del (key ∷ keys)

  unfoldable pub health : Exec World (Unit {0})
  health = client.ping

  abbrev pub valkey_cache : Cache
  valkey_cache = record { get = get; set = set; delete = delete; health = health }
