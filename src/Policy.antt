-- ===== src/Policy.antt =====
-- The policy gate, the humans behind it and the quarantine: policy/*.ts.
pub mod Gate
pub mod Actor
pub mod Quarantine
pub mod Approvals
pub mod Engine
