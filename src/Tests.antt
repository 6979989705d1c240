-- ===== src/Tests.antt =====
-- Concrete data, runs on them, and the theorems at them.
pub mod Decisions
pub mod Machines
pub mod Approvals
pub mod Jobs
pub mod Budgets
pub mod Policies
pub mod Theses
pub mod Monitors
pub mod Schedules
pub mod Journals
pub mod Fresh
