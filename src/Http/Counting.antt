-- ===== src/Http/Counting.antt =====
-- How often a write is counted: by the repository, inside its transaction, and by the handler.
use iam_catalog_admin.Postgres.Schema.{insert_department}
use iam_catalog_admin.Postgres.Statement.{text}
use iam_catalog_admin.Base.{
  [], ℤ, suc, String, Bool, ◌||◌, Option, none, some, List, ◌∷◌, ◌≡◌, refl, ap, inl, inr, length,
  keep, Bool-cases,
}
use iam_catalog_admin.Base.Text.{is_blank}
use iam_catalog_admin.Domain.{Department}
use iam_catalog_admin.Domain.Errors.{PgError, Error}
use iam_catalog_admin.Exec.{Result, ok, err, Exec, on, pure, fail, ◌>>=◌}
use iam_catalog_admin.World.{World, Metric, inc, is_write, writes, writes_total}
use iam_catalog_admin.Postgres.Pgx.{
  input_error, with_input, Pgx, IsPgx, TxRun, committed, rolled_back, no_begin, no_commit,
  no_answer, statement,
}
use iam_catalog_admin.Postgres.Db.{with_pool}
use iam_catalog_admin.Postgres.Department as Repository
use iam_catalog_admin.Postgres.Department.{
  indexed, insert_from_tx, insert_row, with_id, duplicate_of, department_repository,
}
use iam_catalog_admin.Service.Codec.{Codec}
use iam_catalog_admin.Service.Department as Service
use iam_catalog_admin.Service.Department.{DepartmentService, invalidate_cache, invalidate_with}
use iam_catalog_admin.Http.Context.{Ctx}
use iam_catalog_admin.Http.Respond.{answer}
use iam_catalog_admin.Http.Bind.{Gin, DepartmentCreateRequest}
use iam_catalog_admin.Http.Departments

abbrev insertion : Metric
insertion = writes_total "departments" "insert"

-- An action that succeeds counts one insertion.
abbrev Counts : {A : Type 0} → World → Result A × World → Type 0
Counts {A} w x = (a : A) → x.0 ≡ ok a → x.1.metrics ≡ insertion ∷ w.metrics

counted :
    (translate : Error → Error) (w : World) (x : Result Department × World)
    → x.1.metrics ≡ w.metrics
    → Counts w (on (λ created. inc insertion >>= λ _. pure created) (λ e. fail (translate e)) x)
unfolding inc
counted translate w (ok d, w') h a e = ap (λ (ms : List Metric). insertion ∷ ms) h
counted translate w (err x, w') h a e = cc

module _ {p : Pgx} (laws : IsPgx p) where
  insert_from_tx-Counts : (d : Department) (w : World) → Counts w (insert_from_tx p d w)
  unfolding insert_from_tx
  insert_from_tx-Counts d w =
      counted (duplicate_of p) w (statement p 0 (insert_row p d) w) (same (p.wire w 0))
    where
      stored :
          (o : Option PgError) (x : Result Department × List Department)
          → (indexed p o w x).1.metrics ≡ w.metrics
      stored (some e) (ok row, rows) = refl
      stored (some e) (err x, rows) = refl
      stored none (ok row, rows) = refl
      stored none (err x, rows) = refl

      read :
          (o : Option PgError)
          → (with_input o
              (λ w. indexed p (p.index_error d.code) w (insert_department w.now d w.departments))
              w).1.metrics
            ≡ w.metrics
      read (some e) = refl
      read none = stored (p.index_error d.code) (insert_department w.now d w.departments)

      same :
          (o : Option Error)
          → (elim o as (λ _. Result Department × World) [
            | some e ↦ (err e, w)
            | none ↦ insert_row p d w
          ]).1.metrics
            ≡ w.metrics
      same none = read (input_error p (text d.code ∷ text d.name ∷ []))
      same (some e) = refl

  with_pool-Counts :
      (fn : Exec World Department) (w : World) → Counts w (fn w) → Counts w (with_pool p fn w)
  unfolding with_pool
  with_pool-Counts fn w h a e = run (laws.tx_run Department fn w)
    where
      run :
          TxRun fn w (p.run_in_tx Department fn w)
          → (p.run_in_tx Department fn w).1.metrics ≡ insertion ∷ w.metrics
      run (committed b f r) = rw r (h b f)
      run (rolled_back x f r) = let failed = rw (r, with_pool) at e in cc (failed)
      run (no_begin x d r) = let failed = rw (r, with_pool) at e in cc (failed)
      run (no_commit x d r) = let failed = rw (r, with_pool) at e in cc (failed)
      run (no_answer b x f d r) = let failed = rw (r, with_pool) at e in cc (failed)

  insert-Counts : (d : Department) (w : World) → Counts w (Repository.insert p d w)
  unfolding Repository.insert
  insert-Counts d w =
      with_pool-Counts (insert_from_tx p (with_id p w d)) w
        (insert_from_tx-Counts (with_id p w d) w)

module _ {p : Pgx} (laws : IsPgx p) (k : Codec) (g : Gin) (ttl : ℤ) where
  -- The service over the repository, without a cache.
  abbrev pub uncached : DepartmentService
  uncached = record { repo = department_repository p; cache = none; cache_ttl = ttl }

  invalidated-Counts :
      (w : World) (x : Result Department × World)
      → Counts w x
      → Counts w (on (invalidate_cache uncached) fail x)
  unfolding invalidate_cache
  invalidated-Counts w (ok d, w') h a e = h d refl
  invalidated-Counts w (err x, w') h a e = cc

  create-Counts :
      (code name : String) (is_system : Bool) (w : World)
      → Counts w (Service.create uncached code name is_system w)
  unfolding Service.create
  create-Counts code name is_system w = elim (Bool-cases (is_blank code || is_blank name)) [
    | inl blank ↦ λ a e. cc
    | inr given ↦ rw (given, Service.create) (invalidated-Counts w _ (insert-Counts laws _ w))
  ]

  answered :
      (c : Ctx) (w : World) (x : Result Department × World) (d : Department)
      → x.0 ≡ ok d
      → x.1.metrics ≡ insertion ∷ w.metrics
      → writes "departments" "insert" (answer p c (Departments.written p k g "insert" 201) x).1
        ≡ suc (suc (writes "departments" "insert" w))
  unfolding answer writes inc keep
  answered c w (ok a, w') d e h =
      ap (λ (ms : List Metric). length (keep (is_write "departments" "insert") (insertion ∷ ms))) h
  answered c w (err x, w') d e h = cc

  -- Take the service over the repository, without a cache. If Create succeeds on the bound request,
  -- then the handler leaves the counter of inserted departments higher by two, not by one.
  pub create-counts_twice :
      (c : Ctx) (req : DepartmentCreateRequest) (w : World) (d : Department)
      → (Service.create uncached req.code req.name req.is_system w).0 ≡ ok d
      → writes "departments" "insert" (Departments.create_bound p k g uncached c w (some req)).1
        ≡ suc (suc (writes "departments" "insert" w))
  create-counts_twice c req w d e =
      answered c w (Service.create uncached req.code req.name req.is_system w) d e
        (create-Counts req.code req.name req.is_system w d e)
