-- ===== src/Postgres/Department/Versions.antt =====
-- An update that succeeds met its row at the version that it expects, whatever the connection and the
-- transaction do; and a row keeps its place in a table that evolves.
use iam_catalog_admin.Base.{
  String, Bool, true, false, Option, none, some, ℤ, List, [], ◌∷◌, ◌≡◌, refl, ◌∙◌, inl, inr, arith,
  Option-cases, Bool-cases, eq_ℤ, eq_ℤ_iff, eqb, find,
}
use iam_catalog_admin.Domain.{Department, Uuid}
use iam_catalog_admin.Domain.Errors.{Error, no_rows}
use iam_catalog_admin.Exec.{Result, ok, err, Exec, on, pure, fail, lift, ◌>>=◌}
use iam_catalog_admin.World.{World, inc, writes_total}
use iam_catalog_admin.Postgres.Pgx.{
  Pgx, IsPgx, TxRun, committed, rolled_back, no_begin, no_commit, no_answer, statement, input_error,
}
use iam_catalog_admin.Postgres.Statement.{Update}
use iam_catalog_admin.Postgres.Db.{with_pool}
use iam_catalog_admin.Postgres.Schema.{department_at, update_departments, update_found}
use iam_catalog_admin.Postgres.Schema.Invariant.{Evolved, IsLater}
use iam_catalog_admin.Postgres.Department.{
  dept_update_from_tx, update_from_tx, probe, probe_if_no_rows, select_row, scan, count_conflict,
  update_some, department_update,
}

-- The row with an id, after its table evolved.
pub department_at-Evolved :
    (id : Uuid) (xs ys : List Department) {a : Department}
    → Evolved xs ys
    → department_at id xs ≡ some a
    → (b : Department) × (department_at id ys ≡ some b) × IsLater a b
unfolding department_at find
department_at-Evolved id [] ys e h = cc
department_at-Evolved id (x ∷ xs) [] e h = absurd e
department_at-Evolved id (x ∷ xs) (y ∷ ys) {a} e h = elim (Bool-cases (eqb x.id id)) [
  | inl hit ↦
      let seen : eqb y.id id ≡ true = rw e.0.same_key.id at hit in
      let same : x ≡ a = ground (arith, hit, h) in (y, rw seen refl, rw same at e.0)
  | inr other ↦
      let skipped : eqb y.id id ≡ false = rw e.0.same_key.id at other in
      let (b, found, later) =
        department_at-Evolved id xs ys {a = a} e.1 (ground (arith, other, h)) in
      (b, rw skipped found, later)
]

-- The row with the id is there, at the version.
abbrev pub AtVersion : Uuid → ℤ → World → Type 0
AtVersion id version w =
    (old : Department) × (department_at id w.departments ≡ some old)
    × (old.record_version ≡ version)

module _ (p : Pgx) where
  -- A probe never succeeds.
  probed :
      {A : Type 0} (f : A → Error) (g : Error → Error) (x : Result A × World) (d : Department)
      → (on (λ a. fail (f a)) (λ e. fail (g e)) x).0 ≡ ok d
      → ⊥
  probed f g (ok a, w) d h = cc
  probed f g (err e, w) d h = cc

  probe_if_no_rows-fails :
      (id : Uuid) (e : Error) (w : World) (d : Department)
      → (probe_if_no_rows p id e w).0 ≡ ok d
      → ⊥
  unfolding probe
  probe_if_no_rows-fails id no_rows w d h = probed _ _ (select_row p 1 id w) d h
  probe_if_no_rows-fails id _ w d h = cc

  found-AtVersion :
      (id : Uuid) (version : ℤ) (u : Update) (w : World) (d : Department) (o : Option Department)
      → department_at id w.departments ≡ o
      → (on pure (probe_if_no_rows p id) (
          let (r, rows) = update_found w.now id version u w.departments o in
          on (λ row. lift (scan p row)) fail (r, record w { departments = rows }))).0
        ≡ ok d
      → AtVersion id version w
  unfolding update_found
  found-AtVersion id version u w d none e h = absurd (probe_if_no_rows-fails id no_rows _ d h)
  found-AtVersion id version u w d (some old) e h =
      elim (Bool-cases (eq_ℤ old.record_version version)) [
        | inl same ↦ (old, e, (eq_ℤ_iff old.record_version version).0 same)
        | inr stale ↦ absurd (probe_if_no_rows-fails id no_rows _ d (rw stale at h))
      ]

  dept_update_from_tx-AtVersion :
      (id : Uuid) (version : ℤ) (u : Update) (w : World) (d : Department)
      → (dept_update_from_tx p id version u w).0 ≡ ok d
      → AtVersion id version w
  unfolding dept_update_from_tx update_departments
  dept_update_from_tx-AtVersion id version u w d h = elim (Option-cases (p.wire w 0)) [
    | inl sent ↦ elim (Option-cases (input_error p u.args)) [
      | inl read ↦
          found-AtVersion id version u w d (department_at id w.departments) refl
            (rw (sent, read, statement, dept_update_from_tx) at h)
      | inr (x, unread) ↦
          let failed = rw (sent, unread, statement, dept_update_from_tx) at h in cc (failed)
    ]
    | inr (e, failed) ↦
        absurd (probe_if_no_rows-fails id e w d (rw (failed, statement, dept_update_from_tx) at h))
  ]

  count_conflict-fails :
      (e : Error) (w : World) (d : Department) → (count_conflict p e w).0 ≡ ok d → ⊥
  unfolding inc
  count_conflict-fails e w d h = ground arith

  counted :
      (id : Uuid) (version : ℤ) (w : World) (x : Result Department × World) (d : Department)
      → ((b : Department) → x.0 ≡ ok b → AtVersion id version w)
      → (on
          (λ updated. inc (writes_total "departments" "update") >>= λ _. pure updated)
          (count_conflict p)
          x).0
        ≡ ok d
      → AtVersion id version w
  counted id version w (ok b, w') d k h = k b refl
  counted id version w (err e, w') d k h = absurd (count_conflict-fails e w' d h)

  update_from_tx-AtVersion :
      (id : Uuid) (version : ℤ) (u : Update) (w : World) (d : Department)
      → (update_from_tx p id version u w).0 ≡ ok d
      → AtVersion id version w
  unfolding update_from_tx
  update_from_tx-AtVersion id version u w d h =
      counted id version w (dept_update_from_tx p id version u w) d
        (dept_update_from_tx-AtVersion id version u w) h

module _ {p : Pgx} (laws : IsPgx p) where
  -- A transaction that succeeds has run its body.
  pub with_pool-ok :
      {A : Type 0} (fn : Exec World A) (w : World) (a : A)
      → (with_pool p fn w).0 ≡ ok a
      → (fn w).0 ≡ ok a
  unfolding with_pool
  with_pool-ok {A} fn w a h = run (laws.tx_run A fn w)
    where
      run : TxRun fn w (p.run_in_tx A fn w) → (fn w).0 ≡ ok a
      run (committed b e r) = let got = rw (r, e, with_pool) at h in e ∙ got
      run (rolled_back x e r) = let failed = rw (r, with_pool) at h in cc (failed)
      run (no_begin x d r) = let failed = rw (r, with_pool) at h in cc (failed)
      run (no_commit x d r) = let failed = rw (r, with_pool) at h in cc (failed)
      run (no_answer b x f d r) = let failed = rw (r, with_pool) at h in cc (failed)

  pub update_some-AtVersion :
      (id : Uuid) (name : Option String) (is_active : Option Bool) (version : ℤ) (w : World)
      (d : Department)
      → (update_some p id name is_active version w).0 ≡ ok d
      → AtVersion id version w
  update_some-AtVersion id name is_active version w d h =
      let u = department_update id name is_active version in
      update_from_tx-AtVersion p id version u w d
        (with_pool-ok (update_from_tx p id version u) w d h)
