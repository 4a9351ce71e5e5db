-- ===== src/Jobs.antt =====
-- crates/dexdeck-core/src/job.rs: the bounded output of a job, the scheduler, and what holds of them.
pub mod Output
pub mod Scheduler
pub mod Steps
pub mod Invariant
pub mod Lifetime
pub mod History
pub mod Handover
