-- ===== src/Metrics/Registered.antt =====
-- Registration happens once, and leaves a series for every count of the cache and of writes.
use mathlib.Core.Path.{subst}
use iam_catalog_admin.Base.{
  ℕ, String, true, false, Option, none, some, List, [], ◌∷◌, ◌≡◌, refl, arith, All, Bool-cases, ◌⊎◌,
  inl, inr,
}
use iam_catalog_admin.World.{
  Metric, cache_hits, cache_misses, writes_total, optimistic_lock_conflicts, requests_total,
}
use iam_catalog_admin.Metrics.{
  collectors, Labels, Prometheus, Vars, Package, preset, initialise, initial_series, register,
  register_onto, series_of,
}

-- The documented behaviour of MustRegister and WithLabelValues: a registry shows the series of the
-- collectors that are registered in it.
pub record IsPrometheus (p : Prometheus) : Type 0 where
  pub registers :
      (hs : List ℕ) (r r' : p.Registry)
      → p.must_register hs r ≡ some r'
      → All (λ h. p.is_registered h r' ≡ true) hs
  pub stays :
      (h j : ℕ) (others : List String) (r : p.Registry)
      → p.is_registered h r ≡ true
      → p.is_registered h (p.with_label_values j others r) ≡ true
  pub made :
      (h : ℕ) (values : List String) (r : p.Registry)
      → p.is_registered h r ≡ true
      → p.has_series h values (p.with_label_values h values r) ≡ true
  pub kept :
      (h j : ℕ) (values others : List String) (r : p.Registry)
      → p.has_series h values r ≡ true
      → p.has_series h values (p.with_label_values j others r) ≡ true

module _ {p : Prometheus} (laws : IsPrometheus p) where
  initialise-keeps :
      (series : List (ℕ × List String)) (h : ℕ) (values : List String) (r : p.Registry)
      → p.has_series h values r ≡ true
      → p.has_series h values (initialise p series r) ≡ true
  unfolding initialise
  initialise-keeps [] h values r e = e
  initialise-keeps ((j, others) ∷ series) h values r e =
      initialise-keeps series h values (p.with_label_values j others r)
        (laws.kept h j values others r e)

  series_stay :
      (series : List (ℕ × List String)) (j : ℕ) (others : List String) (r : p.Registry)
      → All (λ s. p.is_registered s.0 r ≡ true) series
      → All (λ s. p.is_registered s.0 (p.with_label_values j others r) ≡ true) series
  series_stay [] j others r a = tt
  series_stay (s ∷ series) j others r a =
      (laws.stays s.0 j others r a.0, series_stay series j others r a.1)

  initialise-makes :
      (series : List (ℕ × List String)) (r : p.Registry)
      → All (λ s. p.is_registered s.0 r ≡ true) series
      → All (λ s. p.has_series s.0 s.1 (initialise p series r) ≡ true) series
  unfolding initialise
  initialise-makes [] r a = tt
  initialise-makes ((h, values) ∷ series) r a = (
    initialise-keeps series h values (p.with_label_values h values r) (laws.made h values r a.0),
    initialise-makes series (p.with_label_values h values r) (series_stay series h values r a.1),
  )

-- The increments that the cache adapter, the repositories and the handlers make.
abbrev pub IsCounted : Metric → Type 0
IsCounted (cache_hits key) = (key ≡ "cat:departments") ⊎ (key ≡ "cat:plans")
IsCounted (cache_misses key) = (key ≡ "cat:departments") ⊎ (key ≡ "cat:plans")
IsCounted (writes_total table op) =
    ((table ≡ "departments") × (op ≡ "insert"))
    ⊎ (((table ≡ "departments") × (op ≡ "update")) ⊎ ((table ≡ "plans") × (op ≡ "update")))
IsCounted (optimistic_lock_conflicts table) = (table ≡ "departments") ⊎ (table ≡ "plans")
IsCounted (requests_total route status) = ⊥

module _ {p : Prometheus} (laws : IsPrometheus p) where
  -- Every initial series stands in the registry.
  abbrev IsPreset : Package p → Type 0
  IsPreset m = All (λ s. p.has_series s.0 s.1 m.registry ≡ true) (initial_series p m.vars)

  -- The collectors of all initial series are registered.
  series_registered :
      (v : Vars) (r : p.Registry)
      → All (λ h. p.is_registered h r ≡ true) (collectors p v)
      → All (λ s. p.is_registered s.0 r ≡ true) (initial_series p v)
  unfolding initial_series
  series_registered v r a =
      let hits : p.is_registered v.cache_hits r ≡ true = a.0 in
      let misses : p.is_registered v.cache_misses r ≡ true = a.1.0 in
      let writes : p.is_registered v.writes_total r ≡ true = a.1.1.0 in
      let conflicts : p.is_registered v.optimistic_lock_conflicts r ≡ true = a.1.1.1.0 in
      (hits, (misses, (hits, (misses, (conflicts, (conflicts, (writes, (writes, (writes, tt)))))))))

  preset-series :
      (v : Vars) (o : Option p.Registry) (m' : Package p)
      → ((r : p.Registry) → o ≡ some r → All (λ h. p.is_registered h r ≡ true) (collectors p v))
      → preset p v o ≡ some m'
      → IsPreset m'
  preset-series v none m' k e = cc
  preset-series v (some r) m' k e =
      let made : Package p = record {
        vars = v;
        registry = initialise p (initial_series p v) r;
        registered = true;
      } in
      let same : made ≡ m' = cc in
      subst (λ (m : Package p). IsPreset m) same
        (initialise-makes laws (initial_series p v) r (series_registered v r (k r refl)))

  counted-series :
      (itoa : ℕ → String) (m : Package p) (x : Metric)
      → IsPreset m
      → IsCounted x
      → p.has_series (series_of itoa m.vars x).0 (series_of itoa m.vars x).1 m.registry ≡ true
  unfolding initial_series
  counted-series itoa m (cache_hits key) h (inl e) = rw e h.0
  counted-series itoa m (cache_hits key) h (inr e) = rw e h.1.1.0
  counted-series itoa m (cache_misses key) h (inl e) = rw e h.1.0
  counted-series itoa m (cache_misses key) h (inr e) = rw e h.1.1.1.0
  counted-series itoa m (optimistic_lock_conflicts table) h (inl e) = rw e h.1.1.1.1.0
  counted-series itoa m (optimistic_lock_conflicts table) h (inr e) = rw e h.1.1.1.1.1.0
  counted-series itoa m (writes_total table op) h (inl e) = rw (e.0, e.1) h.1.1.1.1.1.1.0
  counted-series itoa m (writes_total table op) h (inr (inl e)) = rw (e.0, e.1) h.1.1.1.1.1.1.1.0
  counted-series itoa m (writes_total table op) h (inr (inr e)) = rw (e.0, e.1) h.1.1.1.1.1.1.1.1.0
  counted-series itoa m (requests_total route status) h e = absurd e

  register_onto-series :
      (labels : Labels) (m m' : Package p) → register_onto p labels m ≡ some m' → IsPreset m'
  unfolding register_onto
  register_onto-series labels m m' e = preset-series _ _ m' (λ r h. laws.registers _ _ r h) e

  register-first :
      (labels : Labels) (m m' : Package p)
      → m.registered ≡ false
      → register p labels m ≡ some m'
      → register_onto p labels m ≡ some m'
  unfolding register
  register-first labels m m' fresh e = rw fresh at e

  -- If the first Register does not panic, then every count of cache hits and misses of the two keys,
  -- of conflicts on the two tables, of inserted departments and of updated departments and plans has
  -- its series in the registry, as one of a registered collector, before anything is counted.
  pub register-series :
      (itoa : ℕ → String) (labels : Labels) (m m' : Package p) (x : Metric)
      → m.registered ≡ false
      → register p labels m ≡ some m'
      → IsCounted x
      → p.has_series (series_of itoa m'.vars x).0 (series_of itoa m'.vars x).1 m'.registry ≡ true
  register-series itoa labels m m' x fresh e counted =
      counted-series itoa m' x
        (register_onto-series labels m m' (register-first labels m m' fresh e)) counted

module _ (p : Prometheus) where
  preset-registered :
      (v : Vars) (o : Option p.Registry) (m' : Package p)
      → preset p v o ≡ some m'
      → m'.registered ≡ true
  preset-registered v none m' e = cc
  preset-registered v (some r) m' e = ground arith

  register_onto-registered :
      (labels : Labels) (m m' : Package p)
      → register_onto p labels m ≡ some m'
      → m'.registered ≡ true
  unfolding register_onto
  register_onto-registered labels m m' e = preset-registered _ _ m' e

  register-registered :
      (labels : Labels) (m m' : Package p) → register p labels m ≡ some m' → m'.registered ≡ true
  unfolding register
  register-registered labels m m' e = elim (Bool-cases m.registered) [
    | inl done ↦ let same : m ≡ m' = cc in rw same at done
    | inr fresh ↦ register_onto-registered labels m m' (rw (fresh, register) at e)
  ]

  -- After a Register that does not panic, every later Register, whatever its labels are, neither
  -- panics nor changes the collectors or the registry.
  pub register-register :
      (labels others : Labels) (m m' : Package p)
      → register p labels m ≡ some m'
      → register p others m' ≡ some m'
  unfolding register
  register-register labels others m m' e = rw (register-registered labels m m' e) refl
