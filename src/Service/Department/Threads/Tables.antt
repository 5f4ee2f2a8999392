-- ===== src/Service/Department/Threads/Tables.antt =====
-- The department repository is a source of the rows that requests side by side share.
use iam_catalog_admin.Base.{false, List, ◌≡◌, refl, inl, inr, Option-cases, arith}
use iam_catalog_admin.Domain.{Department}
use iam_catalog_admin.Exec.{ok}
use iam_catalog_admin.World.{World}
use iam_catalog_admin.Postgres.Pgx.{Pgx, IsPgx, statement}
use iam_catalog_admin.Postgres.Department.{
  department_repository, list, dept_list_from_tx, select_all,
}
use iam_catalog_admin.Postgres.Department.Soundness.{list-Step, insert-Step, update-Step}
use iam_catalog_admin.Postgres.Department.Versions.{with_pool-ok}
use iam_catalog_admin.Service.Department.Threads.Contract.{IsSource}

-- What SELECT … ORDER BY code answers.
abbrev pub catalog : Pgx → World → List Department
catalog p w = select_all p false w.departments

module _ {p : Pgx} (laws : IsPgx p) where
  list_from_tx-shows :
      (w : World) (rows : List Department)
      → (dept_list_from_tx p false w).0 ≡ ok rows
      → rows ≡ catalog p w
  unfolding dept_list_from_tx
  list_from_tx-shows w rows h = elim (Option-cases (p.wire w 0)) [
    | inl sent ↦
        let shown : select_all p false w.departments ≡ rows =
          ground (arith, rw (sent, statement) at h) in
        rw shown refl
    | inr (e, failed) ↦ let bad = rw (failed, statement) at h in cc (bad)
  ]

  pub department_repository-IsSource : IsSource (catalog p) (department_repository p)
  unfolding list
  department_repository-IsSource = record {
    list_shows = λ w rows h.
        list_from_tx-shows w rows (with_pool-ok laws (dept_list_from_tx p false) w rows h);
    list_cache = λ w. (list-Step laws false w).cache;
    insert_cache = λ d w. (insert-Step laws d w).cache;
    update_cache =
        λ id name is_active version w. (update-Step laws id name is_active version w).cache;
  }
