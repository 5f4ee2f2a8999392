-- ===== src/Service/Department/Threads/Tests.antt =====
-- The theorems of requests side by side at concrete inputs, and a schedule in which a reader puts
-- back the rows that a write has just invalidated.
use mathlib.Core.List.{Memᴰ}
use mathlib.Core.List.Memᴰ.{head}
use iam_catalog_admin.Base.{
  ℕ, none, some, pos, List, [], ◌∷◌, ◌≡◌, refl, inl, inr, arith, All, All-member, sort_by,
  insert_by, keep, find, any,
}
use iam_catalog_admin.Base.Text.{is_blank, is_space}
use iam_catalog_admin.Json.{get, put}
use iam_catalog_admin.Json.Maps.{get-put}
use iam_catalog_admin.Domain.{Department}
use iam_catalog_admin.Exec.{ok}
use iam_catalog_admin.World.{World, inc}
use iam_catalog_admin.Samples.{
  pgx, pgx-IsPgx, codec, codec-IsCodec, finance, support, world, working, departments_service,
}
use iam_catalog_admin.Postgres.Department.{
  dept_list_from_tx, select_all, update_from_tx, dept_update_from_tx, department_update, list,
  update,
}
use iam_catalog_admin.Postgres.Db.{with_pool}
use iam_catalog_admin.Postgres.Statement.{set_column, placeholder, mentions}
use iam_catalog_admin.Postgres.Schema.{
  department_at, updated_department, triggered, guarded, checked, name_guard, name_trigger,
  touch_department, department_checks, assign_departments, replace_department, update_departments,
  update_found, same_department,
}
use iam_catalog_admin.Service.Codec.{marshal_departments}
use iam_catalog_admin.Service.Codec.Roundtrip.{HasInt64}
use iam_catalog_admin.Service.Department.{departments_key, patch}
use iam_catalog_admin.Service.Department.Threads.{
  Thread, listing, listed, patching, patched, advance, resume, run,
}
use iam_catalog_admin.Service.Department.Threads.Contract.{IsStore}
use iam_catalog_admin.Service.Department.Threads.Schedules.{moments, run-listed}
use iam_catalog_admin.Service.Department.Threads.Tables.{catalog, department_repository-IsSource}

working-IsStore : IsStore working
unfolding get
working-IsStore = record {
  get_held = λ k w b h. ground (arith);
  get_keeps = λ k w. inl refl;
  set_stores = λ k b ttl w. inr (get-put k b w.cache);
  delete_keeps = λ k w. inr refl;
}

-- The reader loads the rows, the writer renames Support and deletes the entry, and the reader stores
-- what it loaded.
abbrev overtaken : List ℕ
overtaken = 0 ∷ 0 ∷ 1 ∷ 1 ∷ 0 ∷ []

abbrev side_by_side : List Thread × World
side_by_side = (listing ∷ patching 8 (some "Help desk") none (pos 1) ∷ [], world)

abbrev after : List Thread × World
after = run pgx codec departments_service working overtaken side_by_side

abbrev renamed : Department
renamed = record support { name = "Help desk"; record_version = pos 2; updated_at = 9 }

overtaken-answers : after.0 ≡ listed (ok (finance ∷ support ∷ [])) ∷ patched (ok renamed) ∷ []
unfolding run resume advance patch update list update_from_tx dept_list_from_tx select_all
    dept_update_from_tx department_update with_pool inc department_at updated_department triggered
    guarded checked name_guard name_trigger touch_department department_checks assign_departments
    replace_department update_departments update_found mentions set_column placeholder find any
    same_department is_blank is_space sort_by insert_by keep get
overtaken-answers = refl

-- The table has the new name and the cache the old one.
overtaken-rows : after.1.departments ≡ finance ∷ renamed ∷ []
unfolding run resume advance patch update list update_from_tx dept_list_from_tx select_all
    dept_update_from_tx department_update with_pool inc department_at updated_department triggered
    guarded checked name_guard name_trigger touch_department department_checks assign_departments
    replace_department update_departments update_found mentions set_column placeholder find any
    same_department is_blank is_space sort_by insert_by keep get
overtaken-rows = refl

overtaken-stale :
    get departments_key after.1.cache ≡ some (marshal_departments codec (finance ∷ support ∷ []))
unfolding run resume advance patch update list update_from_tx dept_list_from_tx select_all
    dept_update_from_tx department_update with_pool inc department_at updated_department triggered
    guarded checked name_guard name_trigger touch_department department_checks assign_departments
    replace_department update_departments update_found mentions set_column placeholder find any
    same_department is_blank is_space sort_by insert_by keep get put
overtaken-stale = refl

abbrev shown : List (List Department)
shown = moments pgx codec departments_service working (catalog pgx) overtaken side_by_side

shown-HasInt64 : All (All HasInt64) shown
unfolding run resume advance patch update list update_from_tx dept_list_from_tx select_all
    dept_update_from_tx department_update with_pool inc department_at updated_department triggered
    guarded checked name_guard name_trigger touch_department department_checks assign_departments
    replace_department update_departments update_found mentions set_column placeholder find any
    same_department is_blank is_space sort_by insert_by keep get
shown-HasInt64 = (
  (refl, (refl, tt)),
  ((refl, (refl, tt)), ((refl, (refl, tt)), ((refl, (refl, tt)), ((refl, (refl, tt)), tt)))),
)

run-listed_example : Memᴰ (finance ∷ support ∷ []) shown
unfolding get
run-listed_example =
    run-listed pgx codec-IsCodec departments_service working-IsStore
      (department_repository-IsSource pgx-IsPgx) overtaken side_by_side.0 side_by_side.1
      (tt, (tt, tt)) refl (λ rows. All-member (All HasInt64) shown rows shown-HasInt64)
      (finance ∷ support ∷ []) (rw overtaken-answers (head refl))
