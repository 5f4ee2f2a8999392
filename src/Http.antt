-- ===== src/Http.antt =====
-- internal/adapter/inbound/http and pkg/requestctx: the inbound surface.
pub mod Context
pub mod Respond
pub mod Middleware
pub mod Bind
pub mod Departments
pub mod Plans
pub mod Internal
pub mod Router
pub mod Envelope
pub mod Unauthorized
pub mod Probes
pub mod DocsSurface
pub mod Counting
pub mod Statuses
pub mod Creating
pub mod Patching
pub mod PlanGuards
pub mod PlanPatching
pub mod Gates
pub mod History
pub mod Outcomes
mod Tests
mod StatusTests
mod PlanStatusTests
