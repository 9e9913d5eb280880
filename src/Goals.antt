-- ===== src/Goals.antt =====
-- Goals: src/goals.
pub mod Plan
