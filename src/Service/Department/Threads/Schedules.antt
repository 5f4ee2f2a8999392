-- ===== src/Service/Department/Threads/Schedules.antt =====
-- Requests side by side, in any order of their calls: no answer of List is invented.
use mathlib.Core.List.{Memᴰ}
use mathlib.Core.List.Memᴰ.{head, tail}
use iam_catalog_admin.Base.{
  ℕ, zero, suc, String, Bool, ◌||◌, false, Option, none, some, ℤ, List, [], ◌∷◌, ◌≡◌, refl, ◌⊎◌,
  inl, inr, All, All-member, Bool-cases, if◌then◌else◌,
}
use iam_catalog_admin.Json.{get}
use iam_catalog_admin.Base.Text.{is_blank}
use iam_catalog_admin.Domain.{Department, Uuid}
use iam_catalog_admin.Exec.{Result, ok, err}
use iam_catalog_admin.World.{World, Bytes}
use iam_catalog_admin.Port.{Cache}
use iam_catalog_admin.Postgres.Pgx.{Pgx}
use iam_catalog_admin.Service.Codec.{Codec, IsCodec, marshal_departments, unmarshal_departments}
use iam_catalog_admin.Service.Codec.Roundtrip.{HasInt64, unmarshal_departments-marshal_departments}
use iam_catalog_admin.Service.Department.{
  DepartmentService, create, new_department, departments_key, cached, patch, patch_some,
  is_blank_name,
}
use iam_catalog_admin.Service.Department.Threads.{
  Thread, creating, inserted, created, after_insert, advance_create, IsNew, listing, missed, loaded,
  listed, patching, updated, patched, advance, resume, run, after_get, after_list, after_update,
  hit_or_missed, advance_patch,
}
use iam_catalog_admin.Service.Department.Threads.Contract.{IsStore, IsSource}

module _ (p : Pgx) (k : Codec) (s : DepartmentService) (cache : Cache)
    (content : World → List Department) where
  -- What the table shows before each call of a schedule.
  abbrev pub moments : List ℕ → List Thread × World → List (List Department)
  moments [] x = []
  moments (n ∷ ns) x = content x.1 ∷ moments ns (resume p k s cache n x)

-- What a request carries satisfies a predicate of row lists.
abbrev Carries : (List Department → Type 0) → Thread → Type 0
Carries q (loaded rows) = q rows
Carries q (listed (ok rows)) = q rows
Carries q _ = Unit

module _ (p : Pgx) (k : Codec) (s : DepartmentService) (cache : Cache)
    (content : World → List Department) (codec : IsCodec k) (store : IsStore cache)
    (source : IsSource content s.repo) (q : List Department → Type 0)
    (storable : (rows : List Department) → q rows → All HasInt64 rows) where
  -- The entry was marshalled from rows that satisfy the predicate.
  abbrev Holds : Option Bytes → Type 0
  Holds none = Unit
  Holds (some b) = (rows : List Department) × (b ≡ marshal_departments k rows) × q rows

  abbrev Stands : Thread × World → Type 0
  Stands x = Carries q x.0 × Holds (get departments_key x.1.cache)

  Holds-or_gone : {a b : Option Bytes} → Holds a → (b ≡ a) ⊎ (b ≡ none) → Holds b
  Holds-or_gone h (inl same) = rw same h
  Holds-or_gone h (inr gone) = rw gone tt

  Holds-or_stored :
      {a b : Option Bytes} (rows : List Department)
      → Holds a
      → q rows
      → (b ≡ a) ⊎ (b ≡ some (marshal_departments k rows))
      → Holds b
  Holds-or_stored rows h m (inl same) = rw same h
  Holds-or_stored rows h m (inr stored) = rw stored (rows, refl, m)

  hit :
      (o : Option (List Department)) (rows : List Department)
      → o ≡ some rows
      → q rows
      → Carries q (hit_or_missed o)
  hit o rows e m = rw e m

  decoded : (b : Bytes) → Holds (some b) → Carries q (hit_or_missed (cached k (some b)))
  decoded b (rows, same, m) =
      hit (unmarshal_departments k b) rows
        (rw same (unmarshal_departments-marshal_departments codec rows (storable rows m))) m

  got :
      (w : World) (x : Result (Option Bytes) × World)
      → ((b : Bytes) → x.0 ≡ ok (some b) → get departments_key w.cache ≡ some b)
      → Holds (get departments_key w.cache)
      → Carries q (after_get p k x.0)
  got w (ok none, w') found h = tt
  got w (ok (some b), w') found h = decoded b (rw (found b refl) at h)
  got w (err e, w') found h = tt

  loaded_now :
      (w : World) (x : Result (List Department) × World)
      → ((rows : List Department) → x.0 ≡ ok rows → rows ≡ content w)
      → q (content w)
      → Carries q (after_list x.0)
  loaded_now w (ok rows, w') shows now = rw (shows rows refl) now
  loaded_now w (err e, w') shows now = tt

  wrote_new : (r : Result Department) → Carries q (after_insert p k r)
  wrote_new (ok d) = tt
  wrote_new (err e) = tt

  wrote : (r : Result Department) → Carries q (after_update p k r)
  wrote (ok d) = tt
  wrote (err e) = tt

  updating-Stands :
      (id : Uuid) (name : Option String) (is_active : Option Bool) (version : ℤ) (w : World)
      → (patch p s id name is_active version w).1 ≡ (patch_some p s id name is_active version w).1
      → Holds (get departments_key w.cache)
      → Stands (
          if is_blank_name p name
          then (
            patched (patch p s id name is_active version w).0,
            (patch p s id name is_active version w).1,
          )
          else (
            after_update p k (s.repo.update id name is_active version w).0,
            (s.repo.update id name is_active version w).1,
          ))
  updating-Stands id name is_active version w same h = elim (Bool-cases (is_blank_name p name)) [
    | inl blank ↦
        let still : (patch p s id name is_active version w).1 ≡ w =
          rw (same, blank, patch_some) refl in
        rw (blank, still) (tt, h)
    | inr given ↦
        rw (given, source.update_cache id name is_active version w)
          (wrote (s.repo.update id name is_active version w).0, h)
  ]

  patching-Stands :
      (id : Uuid) (name : Option String) (is_active : Option Bool) (version : ℤ) (w : World)
      → Holds (get departments_key w.cache)
      → Stands (advance_patch p k s cache id name is_active version w)
  unfolding patch
  patching-Stands id none none version w h = (tt, h)
  patching-Stands id (some n) is_active version w h =
      updating-Stands id (some n) is_active version w refl h
  patching-Stands id none (some b) version w h = updating-Stands id none (some b) version w refl h

  creating-Stands :
      (code name : String) (is_system : Bool) (w : World)
      → Holds (get departments_key w.cache)
      → Stands (advance_create p k s cache code name is_system w)
  unfolding create
  creating-Stands code name is_system w h = elim (Bool-cases (is_blank code || is_blank name)) [
    | inl blank ↦ rw blank (tt, h)
    | inr given ↦
        rw (given, source.insert_cache (new_department code name is_system) w)
          (wrote_new (s.repo.insert (new_department code name is_system) w).0, h)
  ]

  -- A call keeps the predicate of the rows that are carried and held, if what the table shows
  -- satisfies it.
  advance-Stands :
      (t : Thread) (w : World) → q (content w) → Stands (t, w) → Stands (advance p k s cache t w)
  unfolding advance
  advance-Stands listing w now (c, h) = (
    got w (cache.get departments_key w) (store.get_held departments_key w) h,
    Holds-or_gone h (store.get_keeps departments_key w),
  )
  advance-Stands missed w now (c, h) =
      (loaded_now w (s.repo.list false w) (source.list_shows w) now, rw (source.list_cache w) h)
  advance-Stands (loaded all) w now (c, h) = (
    c,
    Holds-or_stored all h c
        (store.set_stores departments_key (marshal_departments k all) s.cache_ttl w),
  )
  advance-Stands (creating code name is_system) w now (c, h) =
      creating-Stands code name is_system w h
  advance-Stands (inserted d) w now (c, h) =
      (tt, Holds-or_gone h (store.delete_keeps departments_key w))
  advance-Stands (created r) w now h = h
  advance-Stands (patching id name is_active version) w now (c, h) =
      patching-Stands id name is_active version w h
  advance-Stands (updated d) w now (c, h) =
      (tt, Holds-or_gone h (store.delete_keeps departments_key w))
  advance-Stands (listed r) w now h = h
  advance-Stands (patched r) w now h = h

  -- The same of all threads.
  abbrev AllStand : List Thread × World → Type 0
  AllStand x = All (Carries q) x.0 × Holds (get departments_key x.1.cache)

  resume-AllStand :
      (n : ℕ) (x : List Thread × World)
      → q (content x.1)
      → AllStand x
      → AllStand (resume p k s cache n x)
  unfolding resume
  resume-AllStand n ([], w) now h = h
  resume-AllStand zero (t ∷ ts, w) now h =
      let stood = advance-Stands t w now (h.0.0, h.1) in ((stood.0, h.0.1), stood.1)
  resume-AllStand (suc n) (t ∷ ts, w) now h =
      let stood = resume-AllStand n (ts, w) now (h.0.1, h.1) in ((h.0.0, stood.0), stood.1)

  run-AllStand :
      (ns : List ℕ) (x : List Thread × World)
      → ((rows : List Department) → Memᴰ rows (moments p k s cache content ns x) → q rows)
      → AllStand x
      → AllStand (run p k s cache ns x)
  unfolding run
  run-AllStand [] x now h = h
  run-AllStand (n ∷ ns) x now h =
      run-AllStand ns (resume p k s cache n x) (λ rows m. now rows (tail m))
        (resume-AllStand n x (now (content x.1) (head refl)) h)

new-Carries : (q : List Department → Type 0) (ts : List Thread) → All IsNew ts → All (Carries q) ts
new-Carries q [] h = tt
new-Carries q (listing ∷ ts) h = (tt, new-Carries q ts h.1)
new-Carries q (patching id name is_active version ∷ ts) h = (tt, new-Carries q ts h.1)
new-Carries q (creating code name is_system ∷ ts) h = (tt, new-Carries q ts h.1)
new-Carries q (inserted d ∷ ts) h = absurd h.0
new-Carries q (created r ∷ ts) h = absurd h.0
new-Carries q (missed ∷ ts) h = absurd h.0
new-Carries q (loaded rows ∷ ts) h = absurd h.0
new-Carries q (listed r ∷ ts) h = absurd h.0
new-Carries q (updated d ∷ ts) h = absurd h.0
new-Carries q (patched r ∷ ts) h = absurd h.0

module _ (p : Pgx) {k : Codec} (codec : IsCodec k) (s : DepartmentService) {cache : Cache}
    (store : IsStore cache) {content : World → List Department}
    (source : IsSource content s.repo) where
  -- Let requests in List, Create and Patch run side by side, in any order of their calls of the cache and of
  -- the repository, over a cache and a repository that keep their contracts, from an empty cache. If
  -- the versions that the table shows are int64s, then every successful answer of List is what the
  -- table showed before some call of the schedule.
  pub run-listed :
      (ns : List ℕ) (ts : List Thread) (w : World)
      → All IsNew ts
      → get departments_key w.cache ≡ none
      → ((rows : List Department)
          → Memᴰ rows (moments p k s cache content ns (ts, w))
          → All HasInt64 rows)
      → (ds : List Department) → Memᴰ (listed (ok ds)) (run p k s cache ns (ts, w)).0
      → Memᴰ ds (moments p k s cache content ns (ts, w))
  run-listed ns ts w fresh empty storable ds answered =
      let q : List Department → Type 0 =
        λ rows. Memᴰ rows (moments p k s cache content ns (ts, w)) in
      let stood =
        run-AllStand p k s cache content codec store source q storable ns (ts, w) (λ rows m. m)
          (new-Carries q ts fresh, rw empty tt) in
      All-member (Carries q) (run p k s cache ns (ts, w)).0 (listed (ok ds)) stood.0 answered
