-- ===== src/Metrics.antt =====
-- internal/adapter/outbound/metrics/metrics.go: the collectors, and their registration. Histogram
-- bounds are in milliseconds, where the source has seconds.
pub mod Registered
pub mod Memory
mod Tests
use iam_catalog_admin.Base.{
  ℕ, String, Bool, true, false, Option, none, some, List, [], ◌∷◌, if◌then◌else◌,
}
use iam_catalog_admin.World.{
  Metric, cache_hits, cache_misses, writes_total, optimistic_lock_conflicts, requests_total,
}

abbrev pub Labels : Type 0
Labels = List (String × String)

pub data Kind : Type 0 where
  counter : Kind
  histogram : List ℕ → Kind

pub record Opts : Type 0 where
  pub kind : Kind
  pub name : String
  pub help : String
  pub const_labels : Labels
  pub labels : List String

-- The client library. Its registry holds what NewCounterVec and NewHistogramVec made, under
-- handles, and which of them are registered; MustRegister panics on a duplicate, which is `none`; WithLabelValues makes the series of
-- its labels if there is none; and `has_series` is what Gather shows, the series of the collectors
-- that are registered.
pub record Prometheus : Type 1 where
  pub Registry : Type 0
  pub new_vec : Opts → Registry → ℕ × Registry
  pub must_register : List ℕ → Registry → Option Registry
  pub with_label_values : ℕ → List String → Registry → Registry
  pub is_registered : ℕ → Registry → Bool
  pub has_series : ℕ → List String → Registry → Bool

-- The package variables.
pub record Vars : Type 0 where
  pub cache_hits : ℕ
  pub cache_misses : ℕ
  pub writes_total : ℕ
  pub optimistic_lock_conflicts : ℕ
  pub requests_total : ℕ
  pub request_duration : ℕ

abbrev pub cache_hits_opts : Labels → Opts
cache_hits_opts const_labels = record {
  kind = counter;
  name = "catalog_admin_cache_hits_total";
  help = "Cache hits against this service's own cat:* keys, labelled by key.";
  const_labels = const_labels;
  labels = "key" ∷ [];
}

abbrev pub cache_misses_opts : Labels → Opts
cache_misses_opts const_labels = record {
  kind = counter;
  name = "catalog_admin_cache_misses_total";
  help = "Cache misses against this service's own cat:* keys, labelled by key.";
  const_labels = const_labels;
  labels = "key" ∷ [];
}

abbrev pub writes_total_opts : Labels → Opts
writes_total_opts const_labels = record {
  kind = counter;
  name = "catalog_admin_writes_total";
  help = "Departments/plans inserts and updates, labelled by table and op.";
  const_labels = const_labels;
  labels = "table" ∷ "op" ∷ [];
}

abbrev pub optimistic_lock_conflicts_opts : Labels → Opts
optimistic_lock_conflicts_opts const_labels = record {
  kind = counter;
  name = "catalog_admin_optimistic_lock_conflicts_total";
  help = "CAT-2/CAT-5 409 optimistic_lock_conflict occurrences, labelled by table.";
  const_labels = const_labels;
  labels = "table" ∷ [];
}

abbrev pub requests_total_opts : Labels → Opts
requests_total_opts const_labels = record {
  kind = counter;
  name = "catalog_admin_requests_total";
  help = "CAT-1 through CAT-I2 terminal outcomes, labelled by route and exact HTTP status code.";
  const_labels = const_labels;
  labels = "route" ∷ "status" ∷ [];
}

abbrev pub request_duration_opts : Labels → Opts
request_duration_opts const_labels = record {
  kind = histogram (5 ∷ 10 ∷ 15 ∷ 20 ∷ 30 ∷ 40 ∷ 50 ∷ 75 ∷ 100 ∷ 250 ∷ 500 ∷ 1000 ∷ 2500 ∷ []);
  name = "catalog_admin_request_duration_seconds";
  help =
      "CAT-1 through CAT-I2 request latency in seconds, labelled by route. Feeds the §11.1 SLOs and deploy/monitoring/slo-rules.yml's burn-rate alerts.";
  const_labels = const_labels;
  labels = "route" ∷ [];
}

module _ (p : Prometheus) where
  -- The variables, the registry, and whether registerOnce is done.
  pub record Package : Type 0 where
    pub vars : Vars
    pub registry : p.Registry
    pub registered : Bool

  -- build
  unfoldable pub build : Labels → p.Registry → Vars × p.Registry
  build const_labels r0 =
      let (hits, r1) = p.new_vec (cache_hits_opts const_labels) r0 in
      let (misses, r2) = p.new_vec (cache_misses_opts const_labels) r1 in
      let (writes, r3) = p.new_vec (writes_total_opts const_labels) r2 in
      let (conflicts, r4) = p.new_vec (optimistic_lock_conflicts_opts const_labels) r3 in
      let (requests, r5) = p.new_vec (requests_total_opts const_labels) r4 in
      let (duration, r6) = p.new_vec (request_duration_opts const_labels) r5 in
      (
        record {
          cache_hits = hits;
          cache_misses = misses;
          writes_total = writes;
          optimistic_lock_conflicts = conflicts;
          requests_total = requests;
          request_duration = duration;
        },
        r6,
      )

  -- init
  unfoldable pub init : p.Registry → Package
  unfolding build
  init r0 = let (vars, r) = build [] r0 in record { vars = vars; registry = r; registered = false }

  -- The series that registerOnto makes beforehand, in its order.
  unfoldable pub initial_series : Vars → List (ℕ × List String)
  initial_series v =
      (v.cache_hits, "cat:departments" ∷ [])
      ∷ (v.cache_misses, "cat:departments" ∷ [])
      ∷ (v.cache_hits, "cat:plans" ∷ [])
      ∷ (v.cache_misses, "cat:plans" ∷ [])
      ∷ (v.optimistic_lock_conflicts, "departments" ∷ [])
      ∷ (v.optimistic_lock_conflicts, "plans" ∷ [])
      ∷ (v.writes_total, "departments" ∷ "insert" ∷ [])
      ∷ (v.writes_total, "departments" ∷ "update" ∷ [])
      ∷ (v.writes_total, "plans" ∷ "update" ∷ [])
      ∷ []

  unfoldable pub initialise : List (ℕ × List String) → p.Registry → p.Registry
  initialise [] r = r
  initialise ((h, values) ∷ series) r = initialise series (p.with_label_values h values r)

  abbrev pub collectors : Vars → List ℕ
  collectors v =
      v.cache_hits ∷ v.cache_misses ∷ v.writes_total ∷ v.optimistic_lock_conflicts
      ∷ v.requests_total ∷ v.request_duration ∷ []

  abbrev pub preset : Vars → Option p.Registry → Option Package
  preset v none = none
  preset v (some r) =
      some (record { vars = v; registry = initialise (initial_series v) r; registered = true })

  -- registerOnto, under the sync.Once
  unfoldable pub register_onto : Labels → Package → Option Package
  unfolding build initialise initial_series
  register_onto const_labels m =
      let (vars, r) = build const_labels m.registry in
      preset vars (p.must_register (collectors vars) r)

  -- Register; `none` is its panic
  unfoldable pub register : Labels → Package → Option Package
  unfolding register_onto
  register const_labels m = if m.registered then some m else register_onto const_labels m

-- The series that an increment goes to; `itoa` is strconv.Itoa.
abbrev pub series_of : (ℕ → String) → Vars → Metric → ℕ × List String
series_of itoa v (cache_hits key) = (v.cache_hits, key ∷ [])
series_of itoa v (cache_misses key) = (v.cache_misses, key ∷ [])
series_of itoa v (writes_total table op) = (v.writes_total, table ∷ op ∷ [])
series_of itoa v (optimistic_lock_conflicts table) = (v.optimistic_lock_conflicts, table ∷ [])
series_of itoa v (requests_total route status) = (v.requests_total, route ∷ itoa status ∷ [])
