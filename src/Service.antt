-- ===== src/Service.antt =====
-- internal/core/service: the two services, over the ports.
pub mod Codec
pub mod Department
pub mod Plan
pub mod Keeps
mod Tests
