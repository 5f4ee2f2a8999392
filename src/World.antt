-- ===== src/World.antt =====
-- What the operations read and change: the two tables, the entries that Valkey holds, the counters
-- of internal/adapter/outbound/metrics/metrics.go and the clock.
use iam_catalog_admin.Base.{ℕ, String, Bool, false, ◌&&◌, List, ◌∷◌, ◌==◌, length, keep}
use iam_catalog_admin.Json.{Json}
use iam_catalog_admin.Domain.{Department, Plan, Time}
use iam_catalog_admin.Exec.{Exec, ok}

-- The bytes of a cache entry: a JSON document, or no JSON.
pub data Bytes : Type 0 where
  json : Json → Bytes
  junk : String → Bytes

-- One increment of a counter, with its label values.
pub data Metric : Type 0 where
  cache_hits cache_misses : String → Metric
  writes_total : String → String → Metric
  optimistic_lock_conflicts : String → Metric
  requests_total : String → ℕ → Metric

pub record World : Type 0 where
  pub departments : List Department
  pub plans : List Plan
  pub cache : List (String × Bytes)
  pub metrics : List Metric
  pub now : Time

-- The increments, the latest first; the tables and the cache stay.
unfoldable pub inc : Metric → Exec World (Unit {0})
inc m w = (ok tt, record w { metrics = m ∷ w.metrics })

abbrev pub is_write : String → String → Metric → Bool
is_write table op (writes_total t o) = t == table && o == op
is_write table op m = false

-- The value of catalog_admin_writes_total{table,op}.
unfoldable pub writes : String → String → World → ℕ
writes table op w = length (keep (is_write table op) w.metrics)
