-- ===== src/Postgres.antt =====
-- internal/adapter/outbound/postgres: the schema of the migration, the statements and the two
-- repositories.
pub mod Pgx
pub mod Statement
pub mod Schema
pub mod Db
pub mod Department
pub mod PlanSchema
pub mod Plan
pub mod Kept
pub mod Undisturbed
pub mod Logger
mod Tests
