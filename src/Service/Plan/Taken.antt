-- ===== src/Service/Plan/Taken.antt =====
-- A patch that the guards of PlanService.Patch let pass is one whose arguments neither the driver nor
-- the server rejects.
use iam_catalog_admin.Json.{Map}
use iam_catalog_admin.Base.{
  ap, pos, eq_iff, ℕ, String, false, Option, none, some, List, [], ◌∷◌, ◌++◌, ◌≡◌, refl, inl, inr,
  arith, Bool-cases, Option-cases, ◌==◌,
}
use iam_catalog_admin.Domain.{Plan, PlanPatch, TenantPlan}
use iam_catalog_admin.Exec.{Result-cases, ok}
use iam_catalog_admin.Postgres.Pgx.{input_error, Pgx}
use iam_catalog_admin.Postgres.Statement.{
  placeholder, uuid, Update, Arg, set_column, text, bool, int, nullable_int, jsonb,
}
use iam_catalog_admin.Postgres.PlanSchema.{
  assign_plan, limit_error, column_error, unlabelled, encoding_error, label_error, values,
  assign_plans,
}
use iam_catalog_admin.Postgres.Plan.{plan_update, set_if}
use iam_catalog_admin.Postgres.Plan.Building.{patched, assign_plans-plan_update}
use iam_catalog_admin.Service.Plan.{patch_error}
use iam_catalog_admin.Service.Plan.Validation.{patch_error-IsValid}
use iam_catalog_admin.Service.Plan.Accepted.{
  HoldsText, HoldsMap, FitsColumns, is_bad_branding-IsBranding,
}

-- What the assignments take is rejected by neither the driver nor the type of custom_branding.
module _ (p : Pgx) where
  assign_plan-encoded :
      (column : String) (v : Option Arg) (r r1 : Plan)
      → assign_plan p column v r ≡ ok r1
      → column_error p v ≡ none
  unfolding assign_plan
  assign_plan-encoded column (some (int z)) r r1 h = elim (Option-cases (p.int4_error z)) [
    | inl fits ↦ fits
    | inr (x, wide) ↦ ground (arith, wide, h)
  ]
  assign_plan-encoded column (some (nullable_int l)) r r1 h =
      elim (Option-cases (limit_error p l)) [
        | inl fits ↦ fits
        | inr (x, wide) ↦ ground (arith, wide, h)
      ]
  assign_plan-encoded column (some (text s)) r r1 h = refl
  assign_plan-encoded column (some (bool b)) r r1 h = refl
  assign_plan-encoded column (some (jsonb m)) r r1 h = refl
  assign_plan-encoded column (some (uuid m)) r r1 h = refl
  assign_plan-encoded column none r r1 h = refl

  assign_plan-labelled :
      (column : String) (v : Option Arg) (r r1 : Plan)
      → assign_plan p column v r ≡ ok r1
      → unlabelled p column v ≡ none
  unfolding assign_plan
  assign_plan-labelled column (some (text s)) r r1 h =
      elim (Bool-cases (column == "custom_branding")) [
        | inr elsewhere ↦ rw elsewhere refl
        | inl is ↦
            let named : column ≡ "custom_branding" = (eq_iff column "custom_branding").0 is in
            ground (arith, is, rw named at h)
      ]
  assign_plan-labelled column (some (int z)) r r1 h = refl
  assign_plan-labelled column (some (nullable_int l)) r r1 h = refl
  assign_plan-labelled column (some (bool b)) r r1 h = refl
  assign_plan-labelled column (some (jsonb m)) r r1 h = refl
  assign_plan-labelled column (some (uuid m)) r r1 h = refl
  assign_plan-labelled column none r r1 h = refl

  assign_plans-fit :
      (sets : List (String × ℕ)) (args : List Arg) (r r1 : Plan)
      → assign_plans p sets args r ≡ ok r1
      → (encoding_error p sets args ≡ none) × (label_error p sets args ≡ none)
  unfolding assign_plans encoding_error label_error
  assign_plans-fit [] args r r1 h = (refl, refl)
  assign_plans-fit ((column, n) ∷ sets) args r r1 h =
      elim (Result-cases (assign_plan p column (placeholder args n) r)) [
        | inr (x, failed) ↦ let bad = rw (failed, assign_plans) at h in cc (bad)
        | inl (r2, made) ↦
            let later = assign_plans-fit sets args r2 r1 (rw (made, assign_plans) at h) in
            let encoded = assign_plan-encoded column (placeholder args n) r r2 made in
            let labelled = assign_plan-labelled column (placeholder args n) r r2 made in
            (rw (encoded, encoding_error) later.0, rw (labelled, label_error) later.1)
      ]

  input_error-append :
      (args : List Arg) (v : Arg)
      → input_error p args ≡ none
      → input_error p (v ∷ []) ≡ none
      → input_error p (args ++ v ∷ []) ≡ none
  input_error-append [] v h k = k
  input_error-append (text s ∷ args) v h k = elim (Option-cases (p.text_error s)) [
    | inl holds ↦
        rw (holds, input_error) (input_error-append args v (rw (holds, input_error) at h) k)
    | inr (x, bad) ↦ let failed = rw (bad, input_error) at h in cc (failed)
  ]
  input_error-append (jsonb m ∷ args) v h k = elim (Option-cases (p.jsonb_error m)) [
    | inl holds ↦
        rw (holds, input_error) (input_error-append args v (rw (holds, input_error) at h) k)
    | inr (x, bad) ↦ let failed = rw (bad, input_error) at h in cc (failed)
  ]
  input_error-append (uuid n ∷ args) v h k = input_error-append args v h k
  input_error-append (bool b ∷ args) v h k = input_error-append args v h k
  input_error-append (int z ∷ args) v h k = input_error-append args v h k
  input_error-append (nullable_int l ∷ args) v h k = input_error-append args v h k

  -- The server can hold what is set.
  Readable : Update → Type 0
  Readable u =
      (code : Arg) × (version : Arg) × (rest : List Arg) × (u.args ≡ code ∷ version ∷ rest)
      × (input_error p rest ≡ none)

  set_if-Readable :
      {A : Type 0} (column : String) (arg : A → Arg) (o : Option A) (u : Update)
      → ((a : A) → o ≡ some a → input_error p (arg a ∷ []) ≡ none)
      → Readable u
      → Readable (set_if column arg o u)
  unfolding set_column Readable
  set_if-Readable column arg none u k h = h
  set_if-Readable column arg (some a) u k (code, version, rest, e, h) = (
    code,
    version,
    rest ++ arg a ∷ [],
    ap (λ (args : List Arg). args ++ arg a ∷ []) e,
    input_error-append rest (arg a) h (k a refl),
  )

  holds_text :
      (o : Option String)
      → HoldsText p o
      → (s : String) → o ≡ some s
      → input_error p (text s ∷ []) ≡ none
  holds_text none h s e = cc
  holds_text (some t) h s e =
      let same : t ≡ s = ground (arith, e) in
      let holds : p.text_error s ≡ none = rw same at h in rw (holds, input_error) refl

  holds_map :
      (o : Option Map) → HoldsMap p o → (m : Map) → o ≡ some m → input_error p (jsonb m ∷ []) ≡ none
  holds_map none h m e = cc
  holds_map (some n) h m e =
      let same : n ≡ m = cc (e) in
      let holds : p.jsonb_error m ≡ none = rw same at h in rw (holds, input_error) refl

  plan_update-Readable :
      (code : TenantPlan) (patch : PlanPatch)
      → FitsColumns p patch
      → Readable (plan_update code patch)
  unfolding plan_update Readable
  plan_update-Readable code patch fits =
      set_if-Readable "feature_set" jsonb patch.feature_set _ (holds_map _ fits.features) (
        set_if-Readable "custom_branding" text patch.custom_branding _ (holds_text _ fits.branding)
          (set_if-Readable "sso_enabled" bool patch.sso_enabled _ (λ a e. refl)
            (set_if-Readable "trial_duration_days" int patch.trial_duration_days _ (λ a e. refl)
              (set_if-Readable "tender_limit" nullable_int patch.tender_limit _ (λ a e. refl)
                (set_if-Readable "workflow_template_limit" nullable_int
                  patch.workflow_template_limit _ (λ a e. refl)
                  (set_if-Readable "display_name" text patch.display_name _
                    (holds_text _ fits.display)
                    (text code, int patch.record_version, [], refl, refl)))))))

  Readable-input : (u : Update) → Readable u → input_error p (values p u.args) ≡ none
  unfolding Readable
  Readable-input u (code, version, rest, e, h) = rw e h

  abbrev any_plan : Plan
  any_plan = record {
    code = "";
    display_name = "";
    workflow_template_limit = none;
    tender_limit = none;
    trial_duration_days = pos 0;
    sso_enabled = false;
    custom_branding = "";
    feature_set = [];
    record_version = pos 0;
    created_at = 0;
    updated_at = 0;
  }

  -- No argument of a patch that the guards let pass is rejected.
  pub record IsTaken (u : Update) : Type 0 where
    pub encoded : encoding_error p u.sets u.args ≡ none
    pub read : input_error p (values p u.args) ≡ none
    pub labelled : label_error p u.sets u.args ≡ none

  pub plan_update-IsTaken :
      (code : TenantPlan) (patch : PlanPatch)
      → FitsColumns p patch
      → patch_error code patch ≡ none
      → IsTaken (plan_update code patch)
  plan_update-IsTaken code patch fits passed =
      let valid = patch_error-IsValid code patch passed in
      let made = assign_plans-plan_update p code patch any_plan (record {
        workflow = fits.workflow;
        tender = fits.tender;
        trial = fits.trial;
        branding = is_bad_branding-IsBranding patch.custom_branding valid.branding;
      }) in
      let fit =
        assign_plans-fit (plan_update code patch).sets (plan_update code patch).args any_plan
          (patched patch any_plan) made in
      record {
        encoded = fit.0;
        read = Readable-input (plan_update code patch) (plan_update-Readable code patch fits);
        labelled = fit.1;
      }
