-- ===== src/Postgres/Kept.antt =====
-- What an action of the program may do to the two tables, closed under composition; and that both
-- repositories stay within it.
use iam_catalog_admin.Base.{
  ℕ, String, Bool, Option, ℤ, List, [], ◌∷◌, ◌≡◌, refl, inl, inr, Option-cases, Bool-cases, sort_by,
}
use iam_catalog_admin.Domain.{Department, Plan, PlanPatch, TenantPlan, Uuid}
use iam_catalog_admin.Domain.Errors.{Error, no_rows, is, err_optimistic_lock_conflict}
use iam_catalog_admin.Exec.{Result, ok, err, Exec, on}
use iam_catalog_admin.Exec.Keeps.{on_keeps}
use iam_catalog_admin.World.{World, inc}
use iam_catalog_admin.Port.{DepartmentRepository, PlanRepository}
use iam_catalog_admin.Postgres.Pgx.{
  Pgx, IsPgx, TxRun, committed, rolled_back, no_begin, no_commit, no_answer, statement,
}
use iam_catalog_admin.Postgres.Db.{with_pool}
use iam_catalog_admin.Postgres.Schema.Invariant.{Sound, Evolved-trans}
use iam_catalog_admin.Postgres.Department.{department_repository}
use iam_catalog_admin.Postgres.Department.Soundness.{
  DepartmentStep, Sound-refl, insert-Step, update-Step, list-Step, find_by_id-Step,
}
use iam_catalog_admin.Postgres.Statement.{Update}
use iam_catalog_admin.Postgres.PlanSchema.{plan_at}
use iam_catalog_admin.Postgres.PlanSchema.Invariant.{PlansEvolved-trans}
use iam_catalog_admin.Postgres.PlanSchema.Updates.{
  PlansSound, PlansSound-refl, update_plans-PlansSound,
}
use iam_catalog_admin.Postgres.Plan

abbrev pub Kept : World → World → Type 0
Kept w w' = Sound w.departments w'.departments × PlansSound w.plans w'.plans

pub Kept-refl : (w : World) → Kept w w
Kept-refl w = (Sound-refl w.departments, PlansSound-refl w.plans)

pub Kept-trans : (a b c : World) → Kept a b → Kept b c → Kept a c
Kept-trans a b c h k = (
  record {
    catalog = λ x. k.0.catalog (h.0.catalog x);
    evolved = λ x.
        Evolved-trans a.departments b.departments c.departments (h.0.evolved x)
          (k.0.evolved (h.0.catalog x));
  },
  record {
    table = λ x. k.1.table (h.1.table x);
    evolved =
        λ x. PlansEvolved-trans a.plans b.plans c.plans (h.1.evolved x) (k.1.evolved (h.1.table x));
  },
)

-- An action that keeps the tables, from every world.
abbrev pub Keeps : {A : Type 0} → Exec World A → Type 0
Keeps m = (w : World) → Kept w (m w).1

pub Keeps-same :
    {A : Type 0} (m : Exec World A)
    → ((w : World) → (m w).1.departments ≡ w.departments)
    → ((w : World) → (m w).1.plans ≡ w.plans)
    → Keeps m
Keeps-same m h k w = (rw (h w) (Sound-refl w.departments), rw (k w) (PlansSound-refl w.plans))

module _ {A B : Type 0} where
  pub Kept-on :
      (f : A → Exec World B) (g : Error → Exec World B) (w : World) (x : Result A × World)
      → Kept w x.1
      → ((a : A) → Keeps (f a))
      → ((e : Error) → Keeps (g e))
      → Kept w (on f g x).1
  Kept-on f g w (ok a, w') h kf kg = Kept-trans w w' (f a w').1 h (kf a w')
  Kept-on f g w (err e, w') h kf kg = Kept-trans w w' (g e w').1 h (kg e w')

-- What a plan operation may do to the tables: the departments stay as they are.
abbrev PlanStep : World → World → Type 0
PlanStep w w' = (w'.departments ≡ w.departments) × PlansSound w.plans w'.plans

PlanStep-refl : (w : World) → PlanStep w w
PlanStep-refl w = (refl, PlansSound-refl w.plans)

module _ (p : Pgx) where
  statement-PlanStep :
      {A : Type 0} (n : ℕ) (m : Exec World A) (w w' : World)
      → PlanStep w w'
      → PlanStep w (m w').1
      → PlanStep w (statement p n m w').1
  statement-PlanStep n m w w' k h = elim (Option-cases (p.wire w' n)) [
    | inl sent ↦ rw (sent, statement) h
    | inr (e, failed) ↦ rw (failed, statement) k
  ]

  probe_if_no_rows-PlanStep :
      (code : TenantPlan) (e : Error) (w w' : World)
      → PlanStep w w'
      → PlanStep w (Plan.probe_if_no_rows p code e w').1
  unfolding Plan.probe
  probe_if_no_rows-PlanStep code no_rows w w' h =
      on_keeps (PlanStep w) _ _ (statement p 1 (λ s. (Plan.scan p (plan_at p code s.plans), s)) w')
        (statement-PlanStep 1 (λ s. (Plan.scan p (plan_at p code s.plans), s)) w w' h h)
        (λ a s e k. k) (λ e s k. k)
  probe_if_no_rows-PlanStep code _ w w' h = h

  count_conflict-PlanStep :
      (e : Error) (w w' : World) → PlanStep w w' → PlanStep w (Plan.count_conflict p e w').1
  unfolding inc
  count_conflict-PlanStep e w w' h = elim (Bool-cases (is e err_optimistic_lock_conflict)) [
    | inl conflict ↦ rw (conflict, Plan.count_conflict) h
    | inr other ↦ rw (other, Plan.count_conflict) h
  ]

  plan_update_from_tx-PlanStep :
      (code : TenantPlan) (version : ℤ) (u : Update) (w : World)
      → PlanStep w (Plan.plan_update_from_tx p code version u w).1
  unfolding Plan.plan_update_from_tx
  plan_update_from_tx-PlanStep code version u w =
      on_keeps (PlanStep w) _ _ (statement p 0 (Plan.update_rows p code version u) w)
        (statement-PlanStep 0 (Plan.update_rows p code version u) w w (PlanStep-refl w)
          (refl, update_plans-PlansSound p w.now code version u w.plans))
        (λ a s e h. h) (λ e s h. probe_if_no_rows-PlanStep code e w s h)

  update_from_tx-PlanStep :
      (code : TenantPlan) (version : ℤ) (u : Update) (w : World)
      → PlanStep w (Plan.update_from_tx p code version u w).1
  unfolding Plan.update_from_tx inc
  update_from_tx-PlanStep code version u w =
      on_keeps (PlanStep w) _ _ (Plan.plan_update_from_tx p code version u w)
        (plan_update_from_tx-PlanStep code version u w) (λ a s e h. h)
        (λ e s h. count_conflict-PlanStep e w s h)

-- What both repositories promise to their clients.
pub record KeepsDepartments (r : DepartmentRepository) : Type 0 where
  pub list : (active_only : Bool) → Keeps (r.list active_only)
  pub find_by_id : (id : Uuid) → Keeps (r.find_by_id id)
  pub insert : (d : Department) → Keeps (r.insert d)
  pub update :
      (id : Uuid) (name : Option String) (is_active : Option Bool) (version : ℤ)
      → Keeps (r.update id name is_active version)

pub record KeepsPlans (r : PlanRepository) : Type 0 where
  pub list : Keeps r.list
  pub find_by_code : (code : TenantPlan) → Keeps (r.find_by_code code)
  pub update : (code : TenantPlan) (patch : PlanPatch) → Keeps (r.update code patch)

module _ {p : Pgx} (laws : IsPgx p) where
  with_pool-PlanStep :
      {A : Type 0} (fn : Exec World A) (w : World)
      → PlanStep w (fn w).1
      → PlanStep w (with_pool p fn w).1
  unfolding with_pool
  with_pool-PlanStep {A} fn w h = run (laws.tx_run A fn w)
    where
      run : TxRun fn w (p.run_in_tx A fn w) → PlanStep w (p.run_in_tx A fn w).1
      run (committed a e r) = rw r h
      run (rolled_back x e r) = rw r (PlanStep-refl w)
      run (no_begin x d r) = rw r (PlanStep-refl w)
      run (no_commit x d r) = rw r (PlanStep-refl w)
      run (no_answer a x e d r) = rw r h

  update_sets-PlanStep :
      (code : TenantPlan) (version : ℤ) (u : Update) (sets : List (String × ℕ)) (w : World)
      → PlanStep w (Plan.update_sets p code version u sets w).1
  update_sets-PlanStep code version u [] w = PlanStep-refl w
  update_sets-PlanStep code version u (s ∷ sets) w =
      with_pool-PlanStep (Plan.update_from_tx p code version u) w
        (update_from_tx-PlanStep p code version u w)

  update-PlanStep :
      (code : TenantPlan) (patch : PlanPatch) (w : World)
      → PlanStep w (Plan.update p code patch w).1
  unfolding Plan.update
  update-PlanStep code patch w =
      let u = Plan.plan_update code patch in
      update_sets-PlanStep code patch.record_version u u.sets w

  list-PlanStep : (w : World) → PlanStep w (Plan.list p w).1
  unfolding Plan.list Plan.plan_list_from_tx
  list-PlanStep w = with_pool-PlanStep (Plan.plan_list_from_tx p) w (
      statement-PlanStep p 0
        (λ s. (ok (sort_by (λ (a b : Plan). p.collate a.code b.code) s.plans), s)) w w
        (PlanStep-refl w) (PlanStep-refl w))

  find_by_code-PlanStep :
      (code : TenantPlan) (w : World) → PlanStep w (Plan.find_by_code p code w).1
  unfolding Plan.find_by_code Plan.find_by_code_from_tx
  find_by_code-PlanStep code w = with_pool-PlanStep (Plan.find_by_code_from_tx p code) w (
      on_keeps (PlanStep w) _ _ (statement p 0 (λ s. (Plan.scan p (plan_at p code s.plans), s)) w)
        (statement-PlanStep p 0 (λ s. (Plan.scan p (plan_at p code s.plans), s)) w w
          (PlanStep-refl w) (PlanStep-refl w))
        (λ a s e k. k) (λ e s k. k))

  DepartmentStep-Kept : (w w' : World) → DepartmentStep w w' → Kept w w'
  DepartmentStep-Kept w w' s = (s.departments, rw s.plans (PlansSound-refl w.plans))

  PlanStep-Kept : (w w' : World) → PlanStep w w' → Kept w w'
  PlanStep-Kept w w' s = (rw s.0 (Sound-refl w.departments), s.1)

  pub department_repository-Keeps : KeepsDepartments (department_repository p)
  department_repository-Keeps = record {
    list = λ a w. DepartmentStep-Kept w _ (list-Step laws a w);
    find_by_id = λ id w. DepartmentStep-Kept w _ (find_by_id-Step laws id w);
    insert = λ d w. DepartmentStep-Kept w _ (insert-Step laws d w);
    update = λ id n a v w. DepartmentStep-Kept w _ (update-Step laws id n a v w);
  }

  pub plan_repository-Keeps : KeepsPlans (Plan.plan_repository p)
  plan_repository-Keeps = record {
    list = λ w. PlanStep-Kept w (Plan.list p w).1 (list-PlanStep w);
    find_by_code =
        λ code w. PlanStep-Kept w (Plan.find_by_code p code w).1 (find_by_code-PlanStep code w);
    update = λ code patch w.
        PlanStep-Kept w (Plan.update p code patch w).1 (update-PlanStep code patch w);
  }
