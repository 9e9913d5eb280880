-- ===== src/Tests.antt =====
-- Tests, and the theorems at concrete inputs.
pub mod Sample
mod Log
mod Limits
mod Costs
mod Schedules
pub mod Rulings
pub mod Humans
mod Tickets
mod Names
mod Recovery
mod Ticks
pub mod Plans
mod Delegations
mod Cuts
