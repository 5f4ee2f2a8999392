-- ===== src/Metrics/Memory.antt =====
-- A registry in memory.
use mathlib.Core.Path.{subst}
use iam_catalog_admin.Base.{
  All, ◌||◌, ◌++◌, ℕ, String, Bool, true, false, ◌&&◌, some, List, [], ◌∷◌, ◌≡◌, refl, arith, ◌==◌,
  any, eqb, ◌+◌, eq_refl,
}
use iam_catalog_admin.Metrics.{
  Prometheus, Package, build, init, register, register_onto, initialise, initial_series,
}
use iam_catalog_admin.Metrics.Registered.{IsPrometheus}

abbrev pub same_values : List String → List String → Bool
same_values [] [] = true
same_values (v ∷ vs) (w ∷ ws) = v == w && same_values vs ws
same_values _ _ = false

same_values_refl : (vs : List String) → same_values vs vs ≡ true
same_values_refl [] = refl
same_values_refl (v ∷ vs) = rw (eq_refl v) (same_values_refl vs)

pub record Memory : Type 0 where
  pub next : ℕ
  pub series : List (ℕ × List String)
  pub gathered : List ℕ

abbrev pub holds : ℕ → List String → ℕ × List String → Bool
holds h values s = eqb s.0 h && same_values s.1 values

abbrev pub is_in : ℕ → List ℕ → Bool
is_in h [] = false
is_in h (j ∷ js) = eqb j h || is_in h js

is_in-cons :
    (x : ℕ) (ks hs : List ℕ)
    → All (λ h. is_in h ks ≡ true) hs
    → All (λ h. is_in h (x ∷ ks) ≡ true) hs
is_in-cons x ks [] a = tt
is_in-cons x ks (h ∷ hs) a = (ground (arith, a.0), is_in-cons x ks hs a.1)

is_in-append : (hs ks : List ℕ) → All (λ h. is_in h (hs ++ ks) ≡ true) hs
is_in-append [] ks = tt
is_in-append (h ∷ hs) ks = (ground arith, is_in-cons h (hs ++ ks) hs (is_in-append hs ks))

abbrev pub memory : Prometheus
memory = record {
  Registry = Memory;
  new_vec = λ opts r. (r.next, record r { next = r.next + 1 });
  must_register = λ hs r. some (record r { gathered = hs ++ r.gathered });
  is_registered = λ h r. is_in h r.gathered;
  with_label_values = λ h values r. record r { series = (h, values) ∷ r.series };
  has_series = λ h values r. is_in h r.gathered && any (holds h values) r.series;
}

pub memory-IsPrometheus : IsPrometheus memory
unfolding any
memory-IsPrometheus = record {
  registers = λ hs r r' e.
      let same : record r { gathered = hs ++ r.gathered } ≡ r' = cc (e) in
      subst (λ (m : Memory). All (λ h. is_in h m.gathered ≡ true) hs) same
        (is_in-append hs r.gathered);
  stays = λ h j others r e. e;
  made = λ h values r e. ground (arith, e, same_values_refl values);
  kept = λ h j values others r e. ground (arith, e);
}

abbrev pub started : Package memory
started = record {
  vars = record {
    cache_hits = 0;
    cache_misses = 1;
    writes_total = 2;
    optimistic_lock_conflicts = 3;
    requests_total = 4;
    request_duration = 5;
  };
  registry = record { next = 6; series = []; gathered = [] };
  registered = false;
}

started-init : init memory (record { next = 0; series = []; gathered = [] }) ≡ started
unfolding init build
started-init = refl

abbrev pub labelled : List (String × String)
labelled = ("service", "catalog") ∷ []

abbrev pub registered : Package memory
registered = record {
  vars = record {
    cache_hits = 6;
    cache_misses = 7;
    writes_total = 8;
    optimistic_lock_conflicts = 9;
    requests_total = 10;
    request_duration = 11;
  };
  registry = record {
    next = 12;
    series =
        (8, "plans" ∷ "update" ∷ [])
        ∷ (8, "departments" ∷ "update" ∷ [])
        ∷ (8, "departments" ∷ "insert" ∷ [])
        ∷ (9, "plans" ∷ [])
        ∷ (9, "departments" ∷ [])
        ∷ (7, "cat:plans" ∷ [])
        ∷ (6, "cat:plans" ∷ [])
        ∷ (7, "cat:departments" ∷ [])
        ∷ (6, "cat:departments" ∷ [])
        ∷ [];
    gathered = 6 ∷ 7 ∷ 8 ∷ 9 ∷ 10 ∷ 11 ∷ [];
  };
  registered = true;
}

pub registering : register memory labelled started ≡ some registered
unfolding register register_onto build initialise initial_series
registering = refl
