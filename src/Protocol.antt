-- ===== src/Protocol.antt =====
-- The shared records of crates/dexdeck-protocol.
pub mod Diagnostic
pub mod Discrete
pub mod Error
pub mod Job
pub mod Log
pub mod Model
pub mod TestResult
