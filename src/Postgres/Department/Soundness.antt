-- ===== src/Postgres/Department/Soundness.antt =====
-- Every operation of the department repository keeps the table well formed and its rows in place,
-- whatever the connection and the transaction do.
use iam_catalog_admin.Base.{
  none, some, ◌∷◌, ℕ, String, Bool, Option, none, ℤ, List, [], ◌∷◌, ◌≡◌, refl, inl, inr,
  Option-cases, Bool-cases,
}
use iam_catalog_admin.Json.{num}
use iam_catalog_admin.Domain.{Department, Uuid}
use iam_catalog_admin.Domain.Errors.{
  PgError, Error, no_rows, is, new_error, with_details, err_optimistic_lock_conflict,
}
use iam_catalog_admin.Exec.{ok, err, Result, ok, Exec, on, pure, fail, lift, ◌>>=◌}
use iam_catalog_admin.Exec.Keeps.{on_keeps}
use iam_catalog_admin.World.{World, Metric, inc, writes_total, optimistic_lock_conflicts}
use iam_catalog_admin.Postgres.Pgx.{
  input_error, with_input, Pgx, IsPgx, TxRun, committed, rolled_back, no_begin, no_commit,
  no_answer, roll_back, statement,
}
use iam_catalog_admin.Postgres.Db.{with_pool}
use iam_catalog_admin.Postgres.Statement.{text, Update}
use iam_catalog_admin.Postgres.Schema.{insert_department, department_at}
use iam_catalog_admin.Postgres.Schema.Invariant.{
  Sound, Evolved, Evolved-refl, IsCatalog, insert_department-Sound,
}
use iam_catalog_admin.Postgres.Schema.Updates.{update_departments-Sound}
use iam_catalog_admin.Postgres.Department.{
  indexed, insert_row, update_rows, insert_from_tx, insert, probe, probe_if_no_rows,
  dept_update_from_tx, update_from_tx, update, list, find_by_id, dept_list_from_tx,
  dept_find_by_id_from_tx, count_conflict, with_id, scan, select_row, select_all, not_found_of,
  department_update,
}

-- What a department operation may do to the world.
pub record DepartmentStep (w w' : World) : Type 0 where
  pub departments : Sound w.departments w'.departments
  pub plans : w'.plans ≡ w.plans
  pub cache : w'.cache ≡ w.cache
  pub now : w'.now ≡ w.now

pub Sound-refl : (rows : List Department) → Sound rows rows
Sound-refl rows = record { catalog = λ h. h; evolved = λ h. Evolved-refl rows }

pub DepartmentStep-refl : (w : World) → DepartmentStep w w
DepartmentStep-refl w = record {
  departments = Sound-refl w.departments;
  plans = refl;
  cache = refl;
  now = refl;
}

DepartmentStep-inc :
    (w w' : World) (m : Metric) → DepartmentStep w w' → DepartmentStep w (inc m w').1
unfolding inc
DepartmentStep-inc w w' m h = record {
  departments = h.departments;
  plans = h.plans;
  cache = h.cache;
  now = h.now;
}

DepartmentStep-roll_back : (w w' : World) → DepartmentStep w w' → DepartmentStep w (roll_back w w')
DepartmentStep-roll_back w w' h = record {
  departments = Sound-refl w.departments;
  plans = refl;
  cache = h.cache;
  now = h.now;
}

module _ (p : Pgx) where
  statement-Step :
      {A : Type 0} (n : ℕ) (m : Exec World A) (w w' : World)
      → DepartmentStep w w'
      → DepartmentStep w (m w').1
      → DepartmentStep w (statement p n m w').1
  statement-Step n m w w' k h = elim (Option-cases (p.wire w' n)) [
    | inl sent ↦ rw (sent, statement) h
    | inr (e, failed) ↦ rw (failed, statement) k
  ]

  insert_row-Step : (d : Department) (w : World) → DepartmentStep w (insert_row p d w).1
  insert_row-Step d w = read (input_error p (text d.code ∷ text d.name ∷ []))
    where
      stored :
          (o : Option PgError) (x : Result Department × List Department)
          → Sound w.departments x.1
          → DepartmentStep w (indexed p o w x).1
      stored (some e) (ok row, rows) h = DepartmentStep-refl w
      stored (some e) (err x, rows) h = record {
        departments = h;
        plans = refl;
        cache = refl;
        now = refl;
      }
      stored none (ok row, rows) h = record {
        departments = h;
        plans = refl;
        cache = refl;
        now = refl;
      }
      stored none (err x, rows) h = record {
        departments = h;
        plans = refl;
        cache = refl;
        now = refl;
      }

      read :
          (o : Option PgError)
          → DepartmentStep w
              (with_input o
                (λ w. indexed p (p.index_error d.code) w (insert_department w.now d w.departments))
                w).1
      read (some e) = DepartmentStep-refl w
      read none =
          stored (p.index_error d.code) (insert_department w.now d w.departments)
            (insert_department-Sound w.now d w.departments)

  insert_from_tx-Step : (d : Department) (w : World) → DepartmentStep w (insert_from_tx p d w).1
  unfolding insert_from_tx
  insert_from_tx-Step d w =
      on_keeps (λ w'. DepartmentStep w w') _ _ (statement p 0 (insert_row p d) w)
        (statement-Step 0 (insert_row p d) w w (DepartmentStep-refl w) (insert_row-Step d w))
        (λ a s e h. DepartmentStep-inc w s _ h) (λ e s h. h)

  update_rows-Step :
      (id : Uuid) (version : ℤ) (u : Update) (w : World)
      → DepartmentStep w (update_rows p id version u w).1
  update_rows-Step id version u w = elim (Option-cases (input_error p u.args)) [
    | inr (x, unread) ↦ rw unread (DepartmentStep-refl w)
    | inl read ↦ rw read (record {
      departments = update_departments-Sound w.now id version u w.departments;
      plans = refl;
      cache = refl;
      now = refl;
    })
  ]

  probe-Step : (id : Uuid) (w w' : World) → DepartmentStep w w' → DepartmentStep w (probe p id w').1
  unfolding probe
  probe-Step id w w' h =
      on_keeps {B = Department} (λ s. DepartmentStep w s)
        (λ d. fail (
          with_details (("record_version", num d.record_version) ∷ [])
            (new_error err_optimistic_lock_conflict "record version conflict")))
        (λ e. fail (not_found_of p e)) (select_row p 1 id w')
        (statement-Step 1 (λ s. (scan p (department_at id s.departments), s)) w w' h h)
        (λ a s e k. k) (λ e s k. k)

  probe_if_no_rows-Step :
      (id : Uuid) (e : Error) (w w' : World)
      → DepartmentStep w w'
      → DepartmentStep w (probe_if_no_rows p id e w').1
  probe_if_no_rows-Step id no_rows w w' h = probe-Step id w w' h
  probe_if_no_rows-Step id _ w w' h = h

  dept_update_from_tx-Step :
      (id : Uuid) (version : ℤ) (u : Update) (w : World)
      → DepartmentStep w (dept_update_from_tx p id version u w).1
  unfolding dept_update_from_tx
  dept_update_from_tx-Step id version u w =
      on_keeps (λ s. DepartmentStep w s) _ _
        (on (λ row. lift (scan p row)) fail (statement p 0 (update_rows p id version u) w))
        (on_keeps (λ s. DepartmentStep w s) _ _ (statement p 0 (update_rows p id version u) w)
          (statement-Step 0 (update_rows p id version u) w w (DepartmentStep-refl w)
            (update_rows-Step id version u w))
          (λ a s e h. h) (λ e s h. h))
        (λ a s e h. h) (λ e s h. probe_if_no_rows-Step id e w s h)

  count_conflict-Step :
      (e : Error) (w w' : World) → DepartmentStep w w' → DepartmentStep w (count_conflict p e w').1
  unfolding inc
  count_conflict-Step e w w' h = elim (Bool-cases (is e err_optimistic_lock_conflict)) [
    | inl conflict ↦
        rw (conflict, count_conflict)
          (DepartmentStep-inc w w' (optimistic_lock_conflicts "departments") h)
    | inr other ↦ rw (other, count_conflict) h
  ]

  update_from_tx-Step :
      (id : Uuid) (version : ℤ) (u : Update) (w : World)
      → DepartmentStep w (update_from_tx p id version u w).1
  unfolding update_from_tx
  update_from_tx-Step id version u w =
      on_keeps (λ s. DepartmentStep w s)
        (λ updated. inc (writes_total "departments" "update") >>= λ _. pure updated)
        (count_conflict p) (dept_update_from_tx p id version u w)
        (dept_update_from_tx-Step id version u w) (λ a s e h. DepartmentStep-inc w s _ h)
        (λ e s h. count_conflict-Step e w s h)

-- A transaction keeps what its body keeps, also when it is rolled back.
module _ {p : Pgx} (laws : IsPgx p) where
  with_pool-Step :
      {A : Type 0} (fn : Exec World A) (w : World)
      → DepartmentStep w (fn w).1
      → DepartmentStep w (with_pool p fn w).1
  unfolding with_pool
  with_pool-Step {A} fn w h = run (laws.tx_run A fn w)
    where
      run : TxRun fn w (p.run_in_tx A fn w) → DepartmentStep w (p.run_in_tx A fn w).1
      run (committed a e r) = rw r h
      run (rolled_back x e r) = rw r (DepartmentStep-roll_back w (fn w).1 h)
      run (no_begin x d r) = rw r (DepartmentStep-refl w)
      run (no_commit x d r) = rw r (DepartmentStep-roll_back w (fn w).1 h)
      run (no_answer a x e d r) = rw r h

  pub insert-Step : (d : Department) (w : World) → DepartmentStep w (insert p d w).1
  unfolding insert
  insert-Step d w =
      with_pool-Step (insert_from_tx p (with_id p w d)) w (insert_from_tx-Step p (with_id p w d) w)

  list_from_tx-Step :
      (active_only : Bool) (w : World) → DepartmentStep w (dept_list_from_tx p active_only w).1
  unfolding dept_list_from_tx
  list_from_tx-Step active_only w =
      statement-Step p 0 (λ s. (ok (select_all p active_only s.departments), s)) w w
        (DepartmentStep-refl w) (DepartmentStep-refl w)

  pub list-Step : (active_only : Bool) (w : World) → DepartmentStep w (list p active_only w).1
  unfolding list
  list-Step active_only w =
      with_pool-Step (dept_list_from_tx p active_only) w (list_from_tx-Step active_only w)

  find_from_tx-Step : (id : Uuid) (w : World) → DepartmentStep w (dept_find_by_id_from_tx p id w).1
  unfolding dept_find_by_id_from_tx
  find_from_tx-Step id w =
      on_keeps {B = Department} (λ s. DepartmentStep w s) pure (λ e. fail (not_found_of p e))
        (select_row p 0 id w)
        (statement-Step p 0 (λ s. (scan p (department_at id s.departments), s)) w w
          (DepartmentStep-refl w) (DepartmentStep-refl w))
        (λ a s e k. k) (λ e s k. k)

  pub find_by_id-Step : (id : Uuid) (w : World) → DepartmentStep w (find_by_id p id w).1
  unfolding find_by_id
  find_by_id-Step id w = with_pool-Step (dept_find_by_id_from_tx p id) w (find_from_tx-Step id w)

  pub update-Step :
      (id : Uuid) (name : Option String) (is_active : Option Bool) (version : ℤ) (w : World)
      → DepartmentStep w (update p id name is_active version w).1
  unfolding update
  update-Step id none none version w = find_by_id-Step id w
  update-Step id name is_active version w =
      with_pool-Step _ w
        (update_from_tx-Step p id version (department_update id name is_active version) w)

  -- If the table is well formed, then after Insert, however its transaction ends, it is well formed,
  -- and each row that it had is there with its id, code, is_system and created_at, at a version no
  -- lower than before.
  pub insert-IsCatalog :
      (d : Department) (w : World)
      → IsCatalog w.departments
      → IsCatalog (insert p d w).1.departments × Evolved w.departments (insert p d w).1.departments
  insert-IsCatalog d w h =
      let step = insert-Step d w in (step.departments.catalog h, step.departments.evolved h)

  -- If the table is well formed, then after Update, however its transaction ends, it is well formed,
  -- and each row that it had is there with its id, code, is_system and created_at, at a version no
  -- lower than before.
  pub update-IsCatalog :
      (id : Uuid) (name : Option String) (is_active : Option Bool) (version : ℤ) (w : World)
      → IsCatalog w.departments
      → IsCatalog (update p id name is_active version w).1.departments
        × Evolved w.departments (update p id name is_active version w).1.departments
  update-IsCatalog id name is_active version w h =
      let step = update-Step id name is_active version w in
      (step.departments.catalog h, step.departments.evolved h)
