-- ===== src/Postgres/PlanSchema/Invariant.antt =====
-- The well-formedness of the table plans, and how its rows evolve.
use iam_catalog_admin.Base.{true, none, List, [], ◌∷◌, ◌≡◌, ◌≢◌, refl, ◌∙◌, arith, All, ◌≤ℤ◌}
use iam_catalog_admin.Domain.{Plan}
use iam_catalog_admin.Postgres.PlanSchema.{is_tenant_plan, is_branding_level, plan_checks}

-- What the types of the columns and the CHECK constraints ask of a row.
pub record IsPlanRow (r : Plan) : Type 0 where
  pub known : is_tenant_plan r.code ≡ true
  pub branding : is_branding_level r.custom_branding ≡ true
  pub checks : plan_checks r ≡ none

abbrev pub OtherCode : Plan → Plan → Type 0
OtherCode a b = a.code ≢ b.code

-- Every row is one that the table accepts, and no two have a code in common.
abbrev pub IsPlanTable : List Plan → Type 0
IsPlanTable [] = Unit
IsPlanTable (r ∷ rows) = IsPlanRow r × All (OtherCode r) rows × IsPlanTable rows

-- A row after some statements.
pub record IsLaterPlan (a b : Plan) : Type 0 where
  pub code : a.code ≡ b.code
  pub created_at : a.created_at ≡ b.created_at
  pub version : a.record_version ≤ℤ b.record_version

-- The same plans in the same places, each in a later form.
abbrev pub PlansEvolved : List Plan → List Plan → Type 0
PlansEvolved [] [] = Unit
PlansEvolved (a ∷ xs) (b ∷ ys) = IsLaterPlan a b × PlansEvolved xs ys
PlansEvolved _ _ = ⊥

pub IsLaterPlan-refl : (a : Plan) → IsLaterPlan a a
IsLaterPlan-refl a = record { code = refl; created_at = refl; version = omega arith }

pub PlansEvolved-refl : (rows : List Plan) → PlansEvolved rows rows
PlansEvolved-refl [] = tt
PlansEvolved-refl (a ∷ rows) = (IsLaterPlan-refl a, PlansEvolved-refl rows)

IsLaterPlan-trans : {a b c : Plan} → IsLaterPlan a b → IsLaterPlan b c → IsLaterPlan a c
IsLaterPlan-trans h k = record {
  code = h.code ∙ k.code;
  created_at = h.created_at ∙ k.created_at;
  version = omega (arith, h.version, k.version);
}

pub PlansEvolved-trans :
    (xs ys zs : List Plan) → PlansEvolved xs ys → PlansEvolved ys zs → PlansEvolved xs zs
PlansEvolved-trans [] [] zs h k = k
PlansEvolved-trans [] (b ∷ ys) zs h k = absurd h
PlansEvolved-trans (a ∷ xs) [] zs h k = absurd h
PlansEvolved-trans (a ∷ xs) (b ∷ ys) [] h k = absurd k
PlansEvolved-trans (a ∷ xs) (b ∷ ys) (c ∷ zs) h k =
    (IsLaterPlan-trans h.0 k.0, PlansEvolved-trans xs ys zs h.1 k.1)
