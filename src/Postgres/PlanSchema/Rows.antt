-- ===== src/Postgres/PlanSchema/Rows.antt =====
-- What assignments make of a row of plans.
use iam_catalog_admin.Base.{
  ℕ, String, true, Option, none, some, ℤ, List, [], ◌∷◌, ◌≡◌, refl, ◌∙◌, inl, inr, Bool-cases, ◌==◌,
}
use iam_catalog_admin.Domain.{Plan}
use iam_catalog_admin.Domain.Errors.{Error}
use iam_catalog_admin.Exec.{ok, Result-cases}
use iam_catalog_admin.Postgres.Pgx.{Pgx}
use iam_catalog_admin.Postgres.Statement.{
  Arg, text, bool, int, nullable_int, jsonb, uuid, placeholder,
}
use iam_catalog_admin.Postgres.PlanSchema.{
  is_branding_level, assign_plan, assign_plans, unless_error, limit_error,
}

-- A row after assignments of a SET list.
pub record Assigned (r r' : Plan) : Type 0 where
  pub code : r.code ≡ r'.code
  pub created_at : r.created_at ≡ r'.created_at
  pub version : r.record_version ≡ r'.record_version
  pub branding :
      is_branding_level r.custom_branding ≡ true → is_branding_level r'.custom_branding ≡ true

Assigned-refl : (r : Plan) → Assigned r r
Assigned-refl r = record { code = refl; created_at = refl; version = refl; branding = λ h. h }

Assigned-trans : {a b c : Plan} → Assigned a b → Assigned b c → Assigned a c
Assigned-trans h k = record {
  code = h.code ∙ k.code;
  created_at = h.created_at ∙ k.created_at;
  version = h.version ∙ k.version;
  branding = λ b. k.branding (h.branding b);
}

-- The result of an assignment is the row that it makes.
Assigned-ok : {r x r' : Plan} → Assigned r x → ok x ≡ ok r' → Assigned r r'
Assigned-ok {r} {x} {r'} a h = let same : x ≡ r' = cc in rw same at a

module _ (p : Pgx) where
  Assigned-unless :
      (o : Option Error) {r x r' : Plan} → Assigned r x → unless_error p o x ≡ ok r' → Assigned r r'
  Assigned-unless none a h = Assigned-ok a h
  Assigned-unless (some e) a h = cc

  -- An assignment of a column that is none of the four.
  abbrev Plain : Plan → Plan → Type 0
  Plain r x =
      (r.code ≡ x.code)
      × (r.created_at ≡ x.created_at)
      × (r.record_version ≡ x.record_version)
      × (r.custom_branding ≡ x.custom_branding)

  Plain-Assigned : {r x : Plan} → Plain r x → Assigned r x
  Plain-Assigned h = record {
    code = h.0;
    created_at = h.1;
    version = h.2;
    branding = λ b. rw (← h.3) b;
  }

  assign_text-Assigned :
      (column s : String) (r : Plan) {r' : Plan}
      → assign_plan p column (some (text s)) r ≡ ok r'
      → Assigned r r'
  unfolding assign_plan
  assign_text-Assigned column s r h = elim (Bool-cases (column == "display_name")) [
    | inl is ↦
        Assigned-ok {x = record r { display_name = s }} (Plain-Assigned (refl, refl, refl, refl))
          (rw is at h)
    | inr other ↦ elim (Bool-cases (column == "custom_branding")) [
      | inr elsewhere ↦ let bad = rw (other, elsewhere, assign_plan) at h in cc (bad)
      | inl is ↦ elim (Bool-cases (is_branding_level s)) [
        | inl label ↦
            Assigned-ok {x = record r { custom_branding = s }}
              (record { code = refl; created_at = refl; version = refl; branding = λ b. label })
              (rw (other, is, label, assign_plan) at h)
        | inr unknown ↦ let bad = rw (other, is, unknown, assign_plan) at h in cc (bad)
      ]
    ]
  ]

  assign_limit-Assigned :
      (column : String) (l : Option ℤ) (r : Plan) {r' : Plan}
      → assign_plan p column (some (nullable_int l)) r ≡ ok r'
      → Assigned r r'
  unfolding assign_plan
  assign_limit-Assigned column l r h = elim (Bool-cases (column == "workflow_template_limit")) [
    | inl is ↦
        Assigned-unless (limit_error p l) {x = record r { workflow_template_limit = l }}
          (Plain-Assigned (refl, refl, refl, refl)) (rw (is, assign_plan) at h)
    | inr other ↦ elim (Bool-cases (column == "tender_limit")) [
      | inl is ↦
          Assigned-unless (limit_error p l) {x = record r { tender_limit = l }}
            (Plain-Assigned (refl, refl, refl, refl)) (rw (other, is, assign_plan) at h)
      | inr elsewhere ↦ let bad = rw (other, elsewhere, assign_plan) at h in cc (bad)
    ]
  ]

  assign_plan-Assigned :
      (column : String) (v : Option Arg) (r : Plan) {r' : Plan}
      → assign_plan p column v r ≡ ok r'
      → Assigned r r'
  unfolding assign_plan
  assign_plan-Assigned column (some (text s)) r h = assign_text-Assigned column s r h
  assign_plan-Assigned column (some (nullable_int l)) r h = assign_limit-Assigned column l r h
  assign_plan-Assigned column (some (bool b)) r h = elim (Bool-cases (column == "sso_enabled")) [
    | inl is ↦
        Assigned-ok {x = record r { sso_enabled = b }} (Plain-Assigned (refl, refl, refl, refl))
          (rw (is, assign_plan) at h)
    | inr other ↦ let bad = rw (other, assign_plan) at h in cc (bad)
  ]
  assign_plan-Assigned column (some (int z)) r h =
      elim (Bool-cases (column == "trial_duration_days")) [
        | inl is ↦
            Assigned-unless (p.int4_error z) {x = record r { trial_duration_days = z }}
              (Plain-Assigned (refl, refl, refl, refl)) (rw (is, assign_plan) at h)
        | inr other ↦ let bad = rw (other, assign_plan) at h in cc (bad)
      ]
  assign_plan-Assigned column (some (jsonb m)) r h = elim (Bool-cases (column == "feature_set")) [
    | inl is ↦
        Assigned-ok {x = record r { feature_set = m }} (Plain-Assigned (refl, refl, refl, refl))
          (rw (is, assign_plan) at h)
    | inr other ↦ let bad = rw (other, assign_plan) at h in cc (bad)
  ]
  assign_plan-Assigned column (some (uuid n)) r h = cc
  assign_plan-Assigned column none r h = cc

  pub assign_plans-Assigned :
      (sets : List (String × ℕ)) (args : List Arg) (r : Plan) {r' : Plan}
      → assign_plans p sets args r ≡ ok r'
      → Assigned r r'
  unfolding assign_plans
  assign_plans-Assigned [] args r h = Assigned-ok (Assigned-refl r) h
  assign_plans-Assigned ((column, n) ∷ sets) args r h =
      elim (Result-cases (assign_plan p column (placeholder args n) r)) [
        | inr (e, failed) ↦ let bad = rw (failed, assign_plans) at h in cc (bad)
        | inl (r1, made) ↦
            Assigned-trans (assign_plan-Assigned column (placeholder args n) r made)
              (assign_plans-Assigned sets args r1 (rw (made, assign_plans) at h))
      ]
