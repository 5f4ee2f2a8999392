-- ===== src/Port.antt =====
-- internal/core/port: what the services are given. A method is an action on the world.
use iam_catalog_admin.Base.{String, Bool, Option, ℤ, List}
use iam_catalog_admin.Domain.{Department, Plan, PlanPatch, TenantPlan, Uuid}
use iam_catalog_admin.World.{World, Bytes}
use iam_catalog_admin.Exec.{Exec}

pub record DepartmentRepository : Type 0 where
  pub list : Bool → Exec World (List Department)
  pub find_by_id : Uuid → Exec World Department
  pub insert : Department → Exec World Department
  pub update : Uuid → Option String → Option Bool → ℤ → Exec World Department

pub record PlanRepository : Type 0 where
  pub list : Exec World (List Plan)
  pub find_by_code : TenantPlan → Exec World Plan
  pub update : TenantPlan → PlanPatch → Exec World Plan

-- `some` bytes are a hit and `none` is a miss, Go's (nil, nil).
pub record Cache : Type 0 where
  pub get : String → Exec World (Option Bytes)
  pub set : String → Bytes → ℤ → Exec World (Unit {0})
  pub delete : List String → Exec World (Unit {0})
  pub health : Exec World (Unit {0})
