-- ===== src/Events.antt =====
-- The event log: events/*.ts.
pub mod Canonical
pub mod Redact
pub mod Bound
pub mod Types
pub mod Chain
pub mod Store
pub mod Projections
