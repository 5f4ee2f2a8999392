-- ===== src/Postgres/Plan/Building.antt =====
-- The UPDATE statement that PlanRepository.Update builds assigns exactly the fields of the patch:
-- every placeholder is bound to the value of its own column.
use iam_catalog_admin.Base.{
  ℕ, zero, suc, ◌+◌, ◌≤◌, String, Bool, true, Option, none, some, ℤ, List, [], ◌∷◌, ◌++◌, ◌≡◌, refl,
  ◌∙◌, ap, arith, length, All, inl, inr,
}
use iam_catalog_admin.Json.{Map}
use iam_catalog_admin.Domain.{Plan, PlanPatch, TenantPlan}
use iam_catalog_admin.Exec.{ok, Result-cases}
use iam_catalog_admin.Postgres.Pgx.{Pgx}
use iam_catalog_admin.Postgres.Statement.{
  Update, Arg, text, bool, int, nullable_int, jsonb, set_column, placeholder,
}
use iam_catalog_admin.Postgres.PlanSchema.{assign_plan, assign_plans, is_branding_level}
use iam_catalog_admin.Postgres.Plan.{plan_update, set_if}

length-append_one : (args : List Arg) (v : Arg) → length (args ++ v ∷ []) ≡ length args + 1
length-append_one [] v = omega arith
length-append_one (a ∷ args) v = omega (arith, length-append_one args v)

placeholder-append :
    (args more : List Arg) (n : ℕ)
    → n ≤ length args
    → 1 ≤ n
    → placeholder (args ++ more) n ≡ placeholder args n
unfolding placeholder
placeholder-append [] more n h k = absurd (omega arith)
placeholder-append (a ∷ args) more zero h k = refl
placeholder-append (a ∷ args) more (suc zero) h k = refl
placeholder-append (a ∷ args) more (suc (suc n)) h k =
    placeholder-append args more (suc n) (omega arith) (omega arith)

placeholder_last :
    (args : List Arg) (v : Arg) → placeholder (args ++ v ∷ []) (length (args ++ v ∷ [])) ≡ some v
unfolding placeholder
placeholder_last [] v = refl
placeholder_last (a ∷ []) v = refl
placeholder_last (a ∷ b ∷ args) v = placeholder_last (b ∷ args) v

-- Every placeholder of a SET list has an argument.
abbrev InRange : List (String × ℕ) → List Arg → Type 0
InRange sets args = All (λ s. (1 ≤ s.1) × (s.1 ≤ length args)) sets

InRange-set_column :
    (column : String) (sets : List (String × ℕ)) (args : List Arg) (v : Arg)
    → InRange sets args
    → InRange (sets ++ (column, length (args ++ v ∷ [])) ∷ []) (args ++ v ∷ [])
InRange-set_column column [] args v h = ((omega (arith, length-append_one args v), omega arith), tt)
InRange-set_column column (s ∷ sets) args v h = (
  (h.0.0, omega (arith, h.0.1, length-append_one args v)),
  InRange-set_column column sets args v h.1,
)

module _ (p : Pgx) where
  assign_plans-append :
      (column : String) (sets : List (String × ℕ)) (args : List Arg) (v : Arg) (r : Plan)
      {r' : Plan}
      → InRange sets args
      → assign_plans p sets args r ≡ ok r'
      → assign_plans p (sets ++ (column, length (args ++ v ∷ [])) ∷ []) (args ++ v ∷ []) r
        ≡ assign_plans p ((column, length (args ++ v ∷ [])) ∷ []) (args ++ v ∷ []) r'
  unfolding assign_plans
  assign_plans-append column [] args v r range h =
      ap (λ (x : Plan). assign_plans p ((column, length (args ++ v ∷ [])) ∷ []) (args ++ v ∷ []) x)
        (cc)
  assign_plans-append column ((c, n) ∷ sets) args v r {r'} range h =
      elim (Result-cases (assign_plan p c (placeholder args n) r)) [
        | inl (r1, e) ↦
            rw (placeholder-append args (v ∷ []) n range.0.1 range.0.0, e, assign_plans)
              (assign_plans-append column sets args v r1 {r' = r'} range.1 (ground arith))
        | inr (x, e) ↦ ground arith
      ]

  -- A statement that turns the row r into r'.
  record Assigns (u : Update) (r r' : Plan) : Type 0 where
    in_range : InRange u.sets u.args
    result : assign_plans p u.sets u.args r ≡ ok r'

  assign_plans_last :
      (column : String) (args : List Arg) (v : Arg) (r : Plan) {r' : Plan}
      → assign_plan p column (some v) r ≡ ok r'
      → assign_plans p ((column, length (args ++ v ∷ [])) ∷ []) (args ++ v ∷ []) r ≡ ok r'
  unfolding assign_plans
  assign_plans_last column args v r h = rw (placeholder_last args v, h, assign_plans)

  set_column-Assigns :
      (column : String) (v : Arg) (u : Update) (r r1 r2 : Plan)
      → Assigns u r r1
      → assign_plan p column (some v) r1 ≡ ok r2
      → Assigns (set_column column v u) r r2
  unfolding set_column
  set_column-Assigns column v u r r1 r2 h e = record {
    in_range = InRange-set_column column u.sets u.args v h.in_range;
    result =
        assign_plans-append column u.sets u.args v r {r' = r1} h.in_range h.result
        ∙ assign_plans_last column u.args v r1 e;
  }

abbrev pub or_old {ℓ} : {A : Type ℓ} → Option A → A → A
or_old none old = old
or_old (some new) old = new

-- The row with the fields of the patch, and its own where the patch has none.
unfoldable pub patched : PlanPatch → Plan → Plan
patched patch r = record r {
  display_name = or_old patch.display_name r.display_name;
  workflow_template_limit = or_old patch.workflow_template_limit r.workflow_template_limit;
  tender_limit = or_old patch.tender_limit r.tender_limit;
  trial_duration_days = or_old patch.trial_duration_days r.trial_duration_days;
  sso_enabled = or_old patch.sso_enabled r.sso_enabled;
  custom_branding = or_old patch.custom_branding r.custom_branding;
  feature_set = or_old patch.feature_set r.feature_set;
}

-- A number that a column of type int takes.
abbrev pub FitsInt : Pgx → Option ℤ → Type 0
FitsInt p none = Unit
FitsInt p (some z) = p.int4_error z ≡ none

abbrev pub FitsLimit : Pgx → Option (Option ℤ) → Type 0
FitsLimit p none = Unit
FitsLimit p (some l) = FitsInt p l

abbrev pub IsBranding : Option String → Type 0
IsBranding none = Unit
IsBranding (some b) = is_branding_level b ≡ true

-- What the columns' types ask of a patch.
pub record Fits (p : Pgx) (patch : PlanPatch) : Type 0 where
  pub workflow : FitsLimit p patch.workflow_template_limit
  pub tender : FitsLimit p patch.tender_limit
  pub trial : FitsInt p patch.trial_duration_days
  pub branding : IsBranding patch.custom_branding

module _ (p : Pgx) where
  set_name :
      (o : Option String) (u : Update) (r r1 : Plan)
      → Assigns p u r r1
      → Assigns p
          (set_if "display_name" text o u)
          r
          (record r1 { display_name = or_old o r1.display_name })
  unfolding assign_plan
  set_name none u r r1 h = h
  set_name (some s) u r r1 h = set_column-Assigns p "display_name" (text s) u r r1 _ h refl

  set_workflow :
      (o : Option (Option ℤ)) (u : Update) (r r1 : Plan)
      → FitsLimit p o
      → Assigns p u r r1
      → Assigns p
          (set_if "workflow_template_limit" nullable_int o u)
          r
          (record r1 { workflow_template_limit = or_old o r1.workflow_template_limit })
  unfolding assign_plan
  set_workflow none u r r1 f h = h
  set_workflow (some none) u r r1 f h =
      set_column-Assigns p "workflow_template_limit" (nullable_int none) u r r1 _ h refl
  set_workflow (some (some z)) u r r1 f h =
      set_column-Assigns p "workflow_template_limit" (nullable_int (some z)) u r r1 _ h (rw f)

  set_tender :
      (o : Option (Option ℤ)) (u : Update) (r r1 : Plan)
      → FitsLimit p o
      → Assigns p u r r1
      → Assigns p
          (set_if "tender_limit" nullable_int o u)
          r
          (record r1 { tender_limit = or_old o r1.tender_limit })
  unfolding assign_plan
  set_tender none u r r1 f h = h
  set_tender (some none) u r r1 f h =
      set_column-Assigns p "tender_limit" (nullable_int none) u r r1 _ h refl
  set_tender (some (some z)) u r r1 f h =
      set_column-Assigns p "tender_limit" (nullable_int (some z)) u r r1 _ h (rw f)

  set_trial :
      (o : Option ℤ) (u : Update) (r r1 : Plan)
      → FitsInt p o
      → Assigns p u r r1
      → Assigns p
          (set_if "trial_duration_days" int o u)
          r
          (record r1 { trial_duration_days = or_old o r1.trial_duration_days })
  unfolding assign_plan
  set_trial none u r r1 f h = h
  set_trial (some z) u r r1 f h =
      set_column-Assigns p "trial_duration_days" (int z) u r r1 _ h (rw f)

  set_sso :
      (o : Option Bool) (u : Update) (r r1 : Plan)
      → Assigns p u r r1
      → Assigns p
          (set_if "sso_enabled" bool o u)
          r
          (record r1 { sso_enabled = or_old o r1.sso_enabled })
  unfolding assign_plan
  set_sso none u r r1 h = h
  set_sso (some b) u r r1 h = set_column-Assigns p "sso_enabled" (bool b) u r r1 _ h refl

  set_branding :
      (o : Option String) (u : Update) (r r1 : Plan)
      → IsBranding o
      → Assigns p u r r1
      → Assigns p
          (set_if "custom_branding" text o u)
          r
          (record r1 { custom_branding = or_old o r1.custom_branding })
  unfolding assign_plan
  set_branding none u r r1 f h = h
  set_branding (some b) u r r1 f h =
      set_column-Assigns p "custom_branding" (text b) u r r1 (record r1 { custom_branding = b }) h
        (ground arith)

  set_features :
      (o : Option Map) (u : Update) (r r1 : Plan)
      → Assigns p u r r1
      → Assigns p
          (set_if "feature_set" jsonb o u)
          r
          (record r1 { feature_set = or_old o r1.feature_set })
  unfolding assign_plan
  set_features none u r r1 h = h
  set_features (some m) u r r1 h = set_column-Assigns p "feature_set" (jsonb m) u r r1 _ h refl

  start :
      (code : TenantPlan) (version : ℤ) (r : Plan)
      → Assigns p (record { sets = []; args = text code ∷ int version ∷ [] }) r r
  unfolding assign_plans
  start code version r = record { in_range = tt; result = refl }

  -- If the numbers of a patch fit their columns and its branding is a label, then the assignments
  -- of the statement that Update builds, run on a row with the arguments that it builds, give the
  -- row with exactly the fields of the patch replaced.
  pub assign_plans-plan_update :
      (code : TenantPlan) (patch : PlanPatch) (r : Plan)
      → Fits p patch
      → assign_plans p (plan_update code patch).sets (plan_update code patch).args r
        ≡ ok (patched patch r)
  unfolding plan_update patched
  assign_plans-plan_update code patch r f =
      (set_features patch.feature_set _ r _ (
        set_branding patch.custom_branding _ r _ f.branding (
          set_sso patch.sso_enabled _ r _ (
            set_trial patch.trial_duration_days _ r _ f.trial (
              set_tender patch.tender_limit _ r _ f.tender (
                set_workflow patch.workflow_template_limit _ r _ f.workflow (
                  set_name patch.display_name _ r r
                    (start code patch.record_version r)))))))).result
