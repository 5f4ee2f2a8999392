-- ===== src/Service/Department/Threads.antt =====
-- internal/core/service/department_service.go, as requests run side by side: a thread is a request in
-- List, Create or Patch, cut at the calls of the cache and of the repository, between which the threads of
-- other requests run.
pub mod Contract
pub mod Schedules
pub mod Tables
pub mod Tests
use iam_catalog_admin.Base.{
  ℕ, zero, suc, String, Bool, false, Option, none, some, ℤ, List, ◌||◌, [], ◌∷◌, if◌then◌else◌,
}
use iam_catalog_admin.Base.Text.{is_blank}
use iam_catalog_admin.Domain.{Department, Uuid}
use iam_catalog_admin.Exec.{Result, ok, err}
use iam_catalog_admin.World.{World, Bytes}
use iam_catalog_admin.Port.{Cache}
use iam_catalog_admin.Postgres.Pgx.{Pgx}
use iam_catalog_admin.Service.Codec.{Codec, marshal_departments}
use iam_catalog_admin.Service.Department.{
  DepartmentService, departments_key, cached, create, new_department, patch, translate,
  is_blank_name,
}

-- Where a request is: before cache.Get, before repo.List, before cache.Set with the rows that it
-- loaded, or answered; before repo.Insert, before cache.Delete with the row that it inserted, or
-- answered; before repo.Update, before cache.Delete with the row that it updated, or answered.
pub data Thread : Type 0 where
  listing missed : Thread
  loaded : List Department → Thread
  listed : Result (List Department) → Thread
  creating : String → String → Bool → Thread
  inserted : Department → Thread
  created : Result Department → Thread
  patching : Uuid → Option String → Option Bool → ℤ → Thread
  updated : Department → Thread
  patched : Result Department → Thread

-- A request before its first call.
abbrev pub IsNew : Thread → Type 0
IsNew listing = Unit
IsNew (creating code name is_system) = Unit
IsNew (patching id name is_active version) = Unit
IsNew _ = ⊥

abbrev pub hit_or_missed : Option (List Department) → Thread
hit_or_missed (some ds) = listed (ok ds)
hit_or_missed none = missed

abbrev pub after_list : Result (List Department) → Thread
after_list (ok all) = loaded all
after_list (err e) = listed (err e)

module _ (p : Pgx) (k : Codec) where
  abbrev pub after_get : Result (Option Bytes) → Thread
  after_get (ok raw) = hit_or_missed (cached k raw)
  after_get (err e) = missed

  abbrev pub after_insert : Result Department → Thread
  after_insert (ok d) = inserted d
  after_insert (err e) = created (err e)

  abbrev pub after_update : Result Department → Thread
  after_update (ok d) = updated d
  after_update (err e) = patched (err (translate p e))

  module _ (s : DepartmentService) (cache : Cache) where
    -- A Create with a blank code or name answers at once; the others call repo.Insert.
    abbrev pub advance_create : String → String → Bool → World → Thread × World
    advance_create code name is_system w =
        if is_blank code || is_blank name
        then (let (r, w') = create s code name is_system w in (created r, w'))
        else (let (r, w') = s.repo.insert (new_department code name is_system) w in
            (after_insert r, w'))

    -- A Patch that fails its checks answers at once; the others call repo.Update.
    abbrev pub advance_patch : Uuid → Option String → Option Bool → ℤ → World → Thread × World
    advance_patch id none none version w =
        let (r, w') = patch p s id none none version w in (patched r, w')
    advance_patch id name is_active version w =
        if is_blank_name p name
        then (let (r, w') = patch p s id name is_active version w in (patched r, w'))
        else (let (r, w') = s.repo.update id name is_active version w in (after_update r, w'))

    -- The next call of a thread.
    unfoldable pub advance : Thread → World → Thread × World
    advance listing w = let (r, w') = cache.get departments_key w in (after_get r, w')
    advance missed w = let (r, w') = s.repo.list false w in (after_list r, w')
    advance (loaded all) w =
        let (_, w') = cache.set departments_key (marshal_departments k all) s.cache_ttl w in
        (listed (ok all), w')
    advance (creating code name is_system) w = advance_create code name is_system w
    advance (inserted d) w =
        let (_, w') = cache.delete (departments_key ∷ []) w in (created (ok d), w')
    advance (created r) w = (created r, w)
    advance (patching id name is_active version) w = advance_patch id name is_active version w
    advance (updated d) w =
        let (_, w') = cache.delete (departments_key ∷ []) w in (patched (ok d), w')
    advance (listed r) w = (listed r, w)
    advance (patched r) w = (patched r, w)

    -- The next call of the n-th thread.
    unfoldable pub resume : ℕ → List Thread × World → List Thread × World
    unfolding advance
    resume n ([], w) = ([], w)
    resume zero (t ∷ ts, w) = let (t', w') = advance t w in (t' ∷ ts, w')
    resume (suc n) (t ∷ ts, w) = let (ts', w') = resume n (ts, w) in (t ∷ ts', w')

    -- The threads and the world after a schedule, which names the thread of each call.
    unfoldable pub run : List ℕ → List Thread × World → List Thread × World
    unfolding resume
    run [] x = x
    run (n ∷ ns) x = run ns (resume n x)
