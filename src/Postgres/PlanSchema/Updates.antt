-- ===== src/Postgres/PlanSchema/Updates.antt =====
-- How an UPDATE changes the table plans, and that it keeps the table well formed.
use mathlib.Core.Path.{subst}
use iam_catalog_admin.Domain.Errors.{Error, PgError}
use iam_catalog_admin.Base.{
  true, Option, none, some, List, [], ◌∷◌, ◌≡◌, refl, sym, ◌∙◌, inl, inr, arith, ap, Bool-cases,
  Option-cases, eq_ℤ, eq_iff, find, All, ◌==◌, ℤ,
}
use iam_catalog_admin.Domain.{Plan, Time, TenantPlan}
use iam_catalog_admin.Exec.{Result, ok, err, Result-cases}
use iam_catalog_admin.Postgres.Pgx.{input_error, Pgx}
use iam_catalog_admin.Postgres.Statement.{Update}
use iam_catalog_admin.Postgres.Schema.{next_version}
use iam_catalog_admin.Postgres.Schema.Updates.{next_version-le}
use iam_catalog_admin.Postgres.PlanSchema.{
  update_plan_found, update_read, encoding_error, label_error, values, is_tenant_plan,
  is_branding_level, plan_checks, assign_plans, same_plan, touch_plan, updated_plan, replace_plan,
  plan_at, update_plans,
}
use iam_catalog_admin.Postgres.PlanSchema.Invariant.{
  IsPlanRow, OtherCode, IsPlanTable, IsLaterPlan, IsLaterPlan-refl, PlansEvolved, PlansEvolved-refl,
}
use iam_catalog_admin.Postgres.PlanSchema.Rows.{Assigned, assign_plans-Assigned}

-- A row that UPDATE leaves.
record IsPlanUpdate (old row : Plan) : Type 0 where
  later : IsLaterPlan old row
  branding :
      is_branding_level old.custom_branding ≡ true → is_branding_level row.custom_branding ≡ true
  checks : plan_checks row ≡ none

-- The table after a statement: it is well formed if it was, with the same plans in later forms.
pub record PlansSound (before after : List Plan) : Type 0 where
  pub table : IsPlanTable before → IsPlanTable after
  pub evolved : IsPlanTable before → PlansEvolved before after

pub PlansSound-refl : (rows : List Plan) → PlansSound rows rows
PlansSound-refl rows = record { table = λ h. h; evolved = λ h. PlansEvolved-refl rows }

module _ (p : Pgx) where
  touch_plan-later :
      (now : Time) (old new : Plan) {row : Plan}
      → Assigned old new
      → touch_plan p now old new ≡ ok row
      → IsLaterPlan old row × (new.custom_branding ≡ row.custom_branding)
  unfolding touch_plan
  touch_plan-later now old new {row} a h = elim (Bool-cases (same_plan p old new)) [
    | inl same ↦
        let kept : new ≡ row = let done = rw same at h in cc (done) in
        (
          record {
            code = a.code ∙ ap (λ (r : Plan). r.code) kept;
            created_at = a.created_at ∙ ap (λ (r : Plan). r.created_at) kept;
            version = rw (a.version ∙ ap (λ (r : Plan). r.record_version) kept) (omega arith);
          },
          ap (λ (r : Plan). r.custom_branding) kept,
        )
    | inr differs ↦ elim (Option-cases (next_version old.record_version)) [
      | inl full ↦ let bad = rw (differs, full, touch_plan) at h in cc (bad)
      | inr (v, next) ↦
          let made : record new { record_version = v; updated_at = now } ≡ row =
            let done = rw (differs, next, touch_plan) at h in cc (done) in
          (
            record {
              code = a.code ∙ ap (λ (r : Plan). r.code) made;
              created_at = a.created_at ∙ ap (λ (r : Plan). r.created_at) made;
              version =
                  rw (← ap (λ (r : Plan). r.record_version) made)
                    (next_version-le old.record_version v next);
            },
            ap (λ (r : Plan). r.custom_branding) made,
          )
    ]
  ]

  updated_plan-IsPlanUpdate :
      (now : Time) (u : Update) (old : Plan) {row : Plan}
      → updated_plan p now u old ≡ ok row
      → IsPlanUpdate old row
  unfolding updated_plan
  updated_plan-IsPlanUpdate now u old {row} h =
      elim (Result-cases (assign_plans p u.sets u.args old)) [
        | inr (e, failed) ↦ let bad = rw (failed, updated_plan) at h in cc (bad)
        | inl (new, made) ↦ elim (Result-cases (touch_plan p now old new)) [
          | inr (e, failed) ↦ let bad = rw (made, failed, updated_plan) at h in cc (bad)
          | inl (touched, done) ↦ elim (Option-cases (plan_checks touched)) [
            | inr (e, raised) ↦ let bad = rw (made, done, raised, updated_plan) at h in cc (bad)
            | inl pass ↦
                let same : touched ≡ row =
                  let done' = rw (made, done, pass, updated_plan) at h in cc (done') in
                let a = assign_plans-Assigned p u.sets u.args old made in
                let (later, label) = touch_plan-later now old new a done in
                subst (λ (r : Plan). IsPlanUpdate old r) same
                  (record {
                    later = later;
                    branding = λ b. rw (← label) (a.branding b);
                    checks = pass;
                  })
          ]
        ]
      ]

replace_plan-absent :
    (p : Pgx) (code : TenantPlan) (row r : Plan) (rows : List Plan)
    → r.code ≡ code
    → All (OtherCode r) rows
    → replace_plan p code row rows ≡ rows
unfolding replace_plan
replace_plan-absent p code row r [] e a = refl
replace_plan-absent p code row r (x ∷ rows) e a =
    ground (arith, a.0, eq_iff x.code code, replace_plan-absent p code row r rows e a.1)

find_plan-OtherCode :
    (r : Plan) (code : TenantPlan) (rows : List Plan) {old : Plan}
    → All (OtherCode r) rows
    → find (λ x. x.code == code) rows ≡ some old
    → OtherCode r old
unfolding find
find_plan-OtherCode r code [] a h = cc
find_plan-OtherCode r code (x ∷ rows) {old} a h = elim (Bool-cases (x.code == code)) [
  | inl hit ↦ let same : x ≡ old = ground arith in subst (λ (y : Plan). OtherCode r y) same a.0
  | inr other ↦ find_plan-OtherCode r code rows {old = old} a.1 (ground arith)
]

All-replace_plan :
    (p : Pgx) (r : Plan) (code : TenantPlan) (row : Plan) (rows : List Plan)
    → All (OtherCode r) rows
    → OtherCode r row
    → All (OtherCode r) (replace_plan p code row rows)
unfolding replace_plan
All-replace_plan p r code row [] a o = tt
All-replace_plan p r code row (x ∷ rows) a o = (
  elim (Bool-cases (x.code == code)) [ inl e ↦ rw e o | inr e ↦ rw e a.0 ],
  All-replace_plan p r code row rows a.1 o,
)

OtherCode-later :
    (a b : Plan) (rows : List Plan)
    → IsLaterPlan a b
    → All (OtherCode a) rows
    → All (OtherCode b) rows
OtherCode-later a b [] l h = tt
OtherCode-later a b (x ∷ rows) l h = ((λ e. h.0 (l.code ∙ e)), OtherCode-later a b rows l h.1)

IsPlanRow-update : {old row : Plan} → IsPlanUpdate old row → IsPlanRow old → IsPlanRow row
IsPlanRow-update u h = record {
  known = rw (← u.later.code) h.known;
  branding = u.branding h.branding;
  checks = u.checks;
}

-- Replacing the row that is found by its update.
replace_plan-IsPlanTable :
    (p : Pgx) (code : TenantPlan) (row : Plan) (rows : List Plan) {old : Plan}
    → find (λ x. x.code == code) rows ≡ some old
    → IsPlanUpdate old row
    → IsPlanTable rows
    → IsPlanTable (replace_plan p code row rows) × PlansEvolved rows (replace_plan p code row rows)
unfolding replace_plan find
replace_plan-IsPlanTable p code row [] h u t = cc
replace_plan-IsPlanTable p code row (r ∷ rows) {old} h u t = elim (Bool-cases (r.code == code)) [
  | inl hit ↦
      let same : r ≡ old = ground arith in
      let u' = subst (λ (x : Plan). IsPlanUpdate x row) (sym same) u in
      let e = replace_plan-absent p code row r rows ((eq_iff r.code code).0 hit) t.1 in
      rw (hit, e)
        (
          (IsPlanRow-update u' t.0, OtherCode-later r row rows u'.later t.1, t.2),
          (u'.later, PlansEvolved-refl rows),
        )
  | inr other ↦
      let found : find (λ (x : Plan). x.code == code) rows ≡ some old = ground arith in
      let (ih, later) = replace_plan-IsPlanTable p code row rows {old = old} found u t.2 in
      let apart : OtherCode r row =
        λ e. find_plan-OtherCode r code rows t.1 found (e ∙ sym u.later.code) in
      rw other
        ((t.0, All-replace_plan p r code row rows t.1 apart, ih), (IsLaterPlan-refl r, later))
]

module _ (p : Pgx) where
  plan_at-find :
      (code : TenantPlan) (rows : List Plan) {old : Plan}
      → plan_at p code rows ≡ ok (some old)
      → find (λ x. x.code == code) rows ≡ some old
  unfolding plan_at
  plan_at-find code rows h = elim (Bool-cases (is_tenant_plan code)) [
    | inl known ↦ let found = rw (known, plan_at) at h in cc (found)
    | inr unknown ↦ let bad = rw (unknown, plan_at) at h in cc (bad)
  ]

  update_plan_found-at :
      (now : Time) (code : TenantPlan) (version : ℤ) (u : Update) (rows : List Plan)
      (o : Option Plan)
      → plan_at p code rows ≡ ok o
      → PlansSound rows (update_plan_found p now code version u rows o).1
  unfolding update_plan_found
  update_plan_found-at now code version u rows none h = PlansSound-refl rows
  update_plan_found-at now code version u rows (some old) h =
      elim (Bool-cases (eq_ℤ old.record_version version)) [
        | inr stale ↦ rw stale (PlansSound-refl rows)
        | inl same ↦ elim (Result-cases (updated_plan p now u old)) [
          | inr (e, failed) ↦ rw (same, failed) (PlansSound-refl rows)
          | inl (row, made) ↦
              let found = plan_at-find code rows h in
              let update = updated_plan-IsPlanUpdate p now u old made in
              rw (same, made)
                (record {
                  table = λ t. (replace_plan-IsPlanTable p code row rows found update t).0;
                  evolved = λ t. (replace_plan-IsPlanTable p code row rows found update t).1;
                })
        ]
      ]

  update_read-at :
      (now : Time) (code : TenantPlan) (version : ℤ) (u : Update) (rows : List Plan)
      (unfit : Option Error) (o : Result (Option Plan)) (input : Option PgError)
      (label : Option Error)
      → plan_at p code rows ≡ o
      → PlansSound rows (update_read p now code version u rows unfit o input label).1
  unfolding update_read
  update_read-at now code version u rows (some e) o input label h = PlansSound-refl rows
  update_read-at now code version u rows none (err e) input label h = PlansSound-refl rows
  update_read-at now code version u rows none (ok o) (some x) label h = PlansSound-refl rows
  update_read-at now code version u rows none (ok o) none (some e) h = PlansSound-refl rows
  update_read-at now code version u rows none (ok o) none none h =
      update_plan_found-at now code version u rows o h

  pub update_plans-PlansSound :
      (now : Time) (code : TenantPlan) (version : ℤ) (u : Update) (rows : List Plan)
      → PlansSound rows (update_plans p now code version u rows).1
  unfolding update_plans
  update_plans-PlansSound now code version u rows =
      update_read-at now code version u rows (encoding_error p u.sets u.args) (plan_at p code rows)
        (input_error p (values p u.args)) (label_error p u.sets u.args) refl
