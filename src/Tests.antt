-- ===== src/Tests.antt =====
-- The theorems on concrete inputs.
mod Fixtures
mod Config
mod DebugDiagnostics
mod Effects
mod Filters
mod Jobs
mod Logcat
mod Logs
mod RunProfile
mod Storage
mod Requests
