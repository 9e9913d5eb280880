-- ===== src/Runtime.antt =====
-- The run loop's services: runtime/*.ts.
pub mod Budget
pub mod Semaphore
pub mod Cron
pub mod Scheduler
pub mod Delegation
