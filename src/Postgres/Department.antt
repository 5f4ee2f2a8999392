-- ===== src/Postgres/Department.antt =====
-- department_repository.go
pub mod Soundness
pub mod Locking
pub mod Writers
pub mod Versions
pub mod Deciding
use iam_catalog_admin.Base.{
  ℕ, String, Bool, true, false, ◌&&◌, Option, none, some, ℤ, pos, List, [], ◌∷◌, keep, sort_by, eqb,
  if◌then◌else◌,
}
use iam_catalog_admin.Json.{num, str}
use iam_catalog_admin.Domain.{Department, Uuid}
use iam_catalog_admin.Domain.Errors.{
  Error, PgError, pg, no_rows, is, new_error, with_details, err_department_not_found, err_conflict,
  err_optimistic_lock_conflict,
}
use iam_catalog_admin.Exec.{Result, ok, err, Exec, pure, fail, lift, on, handle, ◌>>=◌}
use iam_catalog_admin.World.{World, inc, writes_total, optimistic_lock_conflicts}
use iam_catalog_admin.Port.{DepartmentRepository}
use iam_catalog_admin.Postgres.Pgx.{Pgx, statement, input_error, with_input}
use iam_catalog_admin.Postgres.Db.{with_pool}
use iam_catalog_admin.Postgres.Statement.{Update, Arg, uuid, text, bool, int, set_column}
use iam_catalog_admin.Postgres.Schema.{insert_department, update_departments, department_at}

abbrev set_name : Option String → Update → Update
set_name none u = u
set_name (some n) u = set_column "name" (text n) u

abbrev set_is_active : Option Bool → Update → Update
set_is_active none u = u
set_is_active (some b) u = set_column "is_active" (bool b) u

-- The SET list and the arguments of Update.
unfoldable pub department_update : Uuid → Option String → Option Bool → ℤ → Update
unfolding set_column
department_update id name is_active version =
    set_is_active is_active
      (set_name name (record { sets = []; args = uuid id ∷ int version ∷ [] }))

module _ (p : Pgx) where
  -- SELECT … [WHERE is_active = true] ORDER BY code
  unfoldable pub select_all : Bool → List Department → List Department
  select_all active_only rows =
      sort_by (λ a b. p.collate a.code b.code)
        (if active_only then keep (λ d. d.is_active) rows else rows)

  -- deptListFromTx
  unfoldable pub dept_list_from_tx : Bool → Exec World (List Department)
  dept_list_from_tx active_only =
      statement p 0 (λ w. (ok (select_all active_only w.departments), w))

  unfoldable pub list : Bool → Exec World (List Department)
  list active_only = with_pool p (dept_list_from_tx active_only)

  -- Scan of the row of a QueryRow: no row is an error.
  abbrev scan {ℓ} : {A : Type ℓ} → Option A → Result A
  scan none = err no_rows
  scan (some a) = ok a

  -- The n-th statement, SELECT … WHERE id = $1, with Scan.
  abbrev pub select_row : ℕ → Uuid → Exec World Department
  select_row n id = statement p n (λ w. (scan (department_at id w.departments), w))

  abbrev not_found_of : Error → Error
  not_found_of no_rows = new_error err_department_not_found "department not found"
  not_found_of e = e

  -- deptFindByIDFromTx
  unfoldable pub dept_find_by_id_from_tx : Uuid → Exec World Department
  dept_find_by_id_from_tx id = handle (select_row 0 id) pure (λ e. fail (not_found_of e))

  unfoldable pub find_by_id : Uuid → Exec World Department
  find_by_id id = with_pool p (dept_find_by_id_from_tx id)

  -- The entry of a new row in the index of the codes.
  abbrev pub indexed :
      Option PgError → World → Result Department × List Department → Result Department × World
  indexed (some x) w (ok d, rows) = (err (pg x), w)
  indexed _ w (r, rows) = (r, record w { departments = rows })

  abbrev pub insert_row : Department → Exec World Department
  insert_row d =
      with_input (input_error p (text d.code ∷ text d.name ∷ []))
        (λ w. indexed (p.index_error d.code) w (insert_department w.now d w.departments))

  abbrev pub duplicate_of : Error → Error
  duplicate_of e =
      if p.is_unique_violation e
      then with_details (("code", str "duplicate_code") ∷ [])
          (new_error err_conflict "department code already exists")
      else e

  -- The transaction of Insert.
  unfoldable pub insert_from_tx : Department → Exec World Department
  unfolding inc
  insert_from_tx d =
      handle (statement p 0 (insert_row d))
        (λ created. inc (writes_total "departments" "insert") >>= λ _. pure created)
        (λ e. fail (duplicate_of e))

  -- An id that is nil is drawn anew.
  abbrev pub with_id : World → Department → Department
  with_id w d = if eqb d.id 0 then record d { id = p.new_uuid w } else d

  unfoldable pub insert : Department → Exec World Department
  insert d w = with_pool p (insert_from_tx (with_id w d)) w

  abbrev pub update_rows : Uuid → ℤ → Update → Exec World (Option Department)
  update_rows id version u = with_input (input_error p u.args) (λ w.
      let (r, rows) = update_departments w.now id version u w.departments in
      (r, record w { departments = rows }))

  -- The second statement of deptUpdateFromTx: the row is missing, or has another version.
  unfoldable pub probe : Uuid → Exec World Department
  probe id =
      handle (select_row 1 id)
        (λ d. fail (
          with_details (("record_version", num d.record_version) ∷ [])
            (new_error err_optimistic_lock_conflict "record version conflict")))
        (λ e. fail (not_found_of e))

  abbrev pub probe_if_no_rows : Uuid → Error → Exec World Department
  probe_if_no_rows id no_rows = probe id
  probe_if_no_rows id e = fail e

  -- deptUpdateFromTx
  unfoldable pub dept_update_from_tx : Uuid → ℤ → Update → Exec World Department
  dept_update_from_tx id version u =
      handle (statement p 0 (update_rows id version u) >>= λ row. lift (scan row)) pure
        (probe_if_no_rows id)

  abbrev pub count_conflict : Error → Exec World Department
  count_conflict e =
      if is e err_optimistic_lock_conflict
      then (inc (optimistic_lock_conflicts "departments") >>= λ _. fail e)
      else fail e

  -- The transaction of Update.
  unfoldable pub update_from_tx : Uuid → ℤ → Update → Exec World Department
  unfolding inc
  update_from_tx id version u =
      handle (dept_update_from_tx id version u)
        (λ updated. inc (writes_total "departments" "update") >>= λ _. pure updated) count_conflict

  abbrev pub update_some : Uuid → Option String → Option Bool → ℤ → Exec World Department
  update_some id name is_active version =
      with_pool p (update_from_tx id version (department_update id name is_active version))

  unfoldable pub update : Uuid → Option String → Option Bool → ℤ → Exec World Department
  update id none none version = find_by_id id
  update id name is_active version = update_some id name is_active version

  abbrev pub department_repository : DepartmentRepository
  department_repository = record {
    list = list;
    find_by_id = find_by_id;
    insert = insert;
    update = update;
  }
