-- ===== src/Models.antt =====
-- What a model call costs: src/models/usage.ts, cost.ts.
pub mod Usage
pub mod Cost
