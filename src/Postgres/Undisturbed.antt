-- ===== src/Postgres/Undisturbed.antt =====
-- Transactions that nothing outside them disturbs, and how the errors of the tables' rules are
-- classified then.
use iam_catalog_admin.Base.{ℕ, none, ◌≡◌, refl}
use iam_catalog_admin.Exec.{Result, ok, err, Exec}
use iam_catalog_admin.World.{World}
use iam_catalog_admin.Postgres.Pgx.{Pgx, roll_back}
use iam_catalog_admin.Postgres.Db.{with_pool, wrap_result}

-- The end of a transaction, by the result of its body.
abbrev pub ended : {A : Type 0} → World → Result A × World → Result A × World
ended before (ok a, w) = (ok a, w)
ended before (err e, w) = (err e, roll_back before w)

-- The connection fails at no statement, and transactions begin, commit and roll back.
pub record IsUndisturbed (p : Pgx) : Type 1 where
  pub sent : (w : World) (n : ℕ) → p.wire w n ≡ none
  pub ends : (A : Type 0) (fn : Exec World A) (w : World) → p.run_in_tx A fn w ≡ ended w (fn w)

ended-result : {A : Type 0} (before : World) (x : Result A × World) → (ended before x).0 ≡ x.0
ended-result before (ok a, w) = refl
ended-result before (err e, w) = refl

module _ {p : Pgx} (u : IsUndisturbed p) where
  pub with_pool-result :
      {A : Type 0} (fn : Exec World A) (w : World) → (with_pool p fn w).0 ≡ wrap_result p (fn w).0
  unfolding with_pool
  with_pool-result {A} fn w = rw (u.ends A fn w, ended-result w (fn w)) refl
