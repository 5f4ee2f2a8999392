-- ===== src/Http/Internal.antt =====
-- internal_handler.go
use iam_catalog_admin.Base.{none, some, false, List, [], ◌∷◌}
use iam_catalog_admin.Json.{num, str, obj, of_members, Map, put}
use iam_catalog_admin.Domain.{Plan}
use iam_catalog_admin.World.{World}
use iam_catalog_admin.Postgres.Pgx.{Pgx}
use iam_catalog_admin.Service.Codec.{Codec}
use iam_catalog_admin.Service.Department
use iam_catalog_admin.Service.Department.{DepartmentService}
use iam_catalog_admin.Service.Plan
use iam_catalog_admin.Service.Plan.{PlanService}
use iam_catalog_admin.Http.Context.{Ctx}
use iam_catalog_admin.Http.Respond.{Response, reply, handle_error, answer}
use iam_catalog_admin.Http.Middleware.{require_system}
use iam_catalog_admin.Http.Bind.{Gin}
use iam_catalog_admin.Http.Departments.{department_items}
use iam_catalog_admin.Http.Plans.{plan_items}

-- for i := range plans { versions[code] = version }
unfoldable pub record_versions : List Plan → Map → Map
unfolding put
record_versions [] m = m
record_versions (r ∷ ps) m = record_versions ps (put r.code (num r.record_version) m)

module _ (p : Pgx) (k : Codec) (g : Gin) where
  -- CAT-I1
  unfoldable pub departments : DepartmentService → Ctx → World → Response × World
  unfolding require_system answer department_items
  departments s c w = elim (require_system c) [
    | some e ↦ (handle_error p c.request e, w)
    | none ↦
        answer p c
          (λ ds w'. (
            reply 200 (
                ("departments", department_items p k g ds)
                ∷ ("as_of", str (k.rfc3339 w'.now))
                ∷ []),
            w',
          ))
          (Department.list k s false w)
  ]

  -- CAT-I2
  unfoldable pub plans : PlanService → Ctx → World → Response × World
  unfolding require_system answer plan_items record_versions
  plans s c w = elim (require_system c) [
    | some e ↦ (handle_error p c.request e, w)
    | none ↦
        answer p c
          (λ ps w'. (
            reply 200 (
                ("plans", plan_items ps)
                ∷ ("record_versions", obj (of_members (record_versions ps [])))
                ∷ []),
            w',
          ))
          (Plan.list k s w)
  ]
