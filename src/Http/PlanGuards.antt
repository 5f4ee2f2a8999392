-- ===== src/Http/PlanGuards.antt =====
-- The statuses of the guards of PlanService.Patch.
use iam_catalog_admin.Base.{
  String, true, false, Option, none, some, ◌≡◌, refl, inl, inr, arith, Bool-cases,
}
use iam_catalog_admin.Domain.{PlanPatch, TenantPlan}
use iam_catalog_admin.Domain.Errors.{Error, new_error, with_details, err_plan_not_found}
use iam_catalog_admin.Postgres.Pgx.{Pgx}
use iam_catalog_admin.Service.Plan.{
  patch_error, is_known, is_empty_patch, is_blank_text, is_neg_limit, is_neg_int, is_bad_branding,
  bad_feature, features, features_error,
}
use iam_catalog_admin.Http.Context.{Ctx}
use iam_catalog_admin.Http.Respond.{handle_error, domain_error_status}

module _ (p : Pgx) where
  -- The errors of the guards that follow the test of the code.
  abbrev pub Is400 : Ctx → Option Error → Type 0
  Is400 c o = (e : Error) → o ≡ some e → (handle_error p c.request e).status ≡ 400

  raised :
      (c : Ctx) {x e : Error}
      → some x ≡ some e
      → (handle_error p c.request x).status ≡ 400
      → (handle_error p c.request e).status ≡ 400
  raised c {x} {e} h k = let is : x ≡ e = cc in rw is at k

  features_error-Is400 : (c : Ctx) (o : Option String) → Is400 c (features_error o)
  unfolding handle_error new_error with_details domain_error_status
  features_error-Is400 c none e same = cc
  features_error-Is400 c (some key) e same = ground (arith, same)

  pub patch_error-Is400 :
      (c : Ctx) (code : TenantPlan) (patch : PlanPatch)
      → is_known code ≡ true
      → Is400 c (patch_error code patch)
  unfolding patch_error handle_error new_error with_details domain_error_status
  patch_error-Is400 c code patch known e same = elim (Bool-cases (is_empty_patch patch)) [
    | inl t ↦ raised c (rw (known, t, patch_error) at same) refl
    | inr f0 ↦ elim (Bool-cases (is_blank_text patch.display_name)) [
      | inl t ↦ raised c (rw (known, f0, t, patch_error) at same) refl
      | inr f1 ↦ elim (Bool-cases (is_neg_limit patch.workflow_template_limit)) [
        | inl t ↦ raised c (rw (known, f0, f1, t, patch_error) at same) refl
        | inr f2 ↦ elim (Bool-cases (is_neg_limit patch.tender_limit)) [
          | inl t ↦ raised c (rw (known, f0, f1, f2, t, patch_error) at same) refl
          | inr f3 ↦ elim (Bool-cases (is_neg_int patch.trial_duration_days)) [
            | inl t ↦ raised c (rw (known, f0, f1, f2, f3, t, patch_error) at same) refl
            | inr f4 ↦ elim (Bool-cases (is_bad_branding patch.custom_branding)) [
              | inl t ↦ raised c (rw (known, f0, f1, f2, f3, f4, t, patch_error) at same) refl
              | inr f5 ↦
                  features_error-Is400 c (bad_feature (features patch.feature_set)) e
                    (rw (known, f0, f1, f2, f3, f4, f5, patch_error) at same)
            ]
          ]
        ]
      ]
    ]
  ]

  pub unknown_error :
      (code : TenantPlan) (patch : PlanPatch)
      → is_known code ≡ false
      → patch_error code patch ≡ some (new_error err_plan_not_found "plan not found")
  unfolding patch_error
  unknown_error code patch unknown = rw (unknown, patch_error) refl
