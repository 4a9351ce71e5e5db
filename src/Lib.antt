-- ===== src/Lib.antt =====
-- DexDeck, a terminal workbench for Android projects, is a workspace of Rust crates. This
-- library models the state of its core and proves what keeps that state consistent.
--
-- The parts. crates/dexdeck/src/app_services.rs starts the runtime
-- (crates/dexdeck-core/src/runtime.rs) with the application's reducer (app.rs): actions go in,
-- and the effects that the reducer asks for go out to workers, each with a cancellation token.
-- The other parts keep a state of their own, which callers drive by their methods: the scheduler
-- of jobs (job.rs), the executor of workflows (workflow.rs), the refresh of the project model
-- (crates/dexdeck-gradle/src/refresh.rs) and the watch of its files
-- (crates/dexdeck-config/src/model_watch.rs), the buffer of log records (log_buffer.rs), which
-- the filter (log_filter.rs) and the view of the log (log_actions.rs) read, and the history of
-- test runs (test_history.rs). What is run is resolved (run_profile.rs) from the project model,
-- the devices and the configuration, which crates/dexdeck-config/src loads from its sources and
-- checks; the same crate keeps state in files. The records of the log come from
-- crates/dexdeck-android/src/logcat.rs.
--
-- The files.
-- - Common: numbers, tests, lists, maps as association lists, bounded queues.
-- - Protocol: the records and enums of crates/dexdeck-protocol/src, a module for each file. A
--   field that would be a reserved word has a longer name (`module_name`, `package_name`).
-- - Jobs: crates/dexdeck-core/src/job.rs. Jobs.Output is `OutputBuffer`; Jobs.Scheduler is
--   `JobScheduler`, whose methods take the scheduler to a new one and a result, and keep what
--   was changed before an early return. Jobs.Steps says what each method does, Jobs.Invariant
--   and its children what holds between two calls, Jobs.Lifetime, Jobs.History and Jobs.Handover
--   what follows.
-- - LogBuffer: crates/dexdeck-core/src/log_buffer.rs, with the loop of `push` in
--   LogBuffer.Eviction.
-- - LogFilter: crates/dexdeck-core/src/log_filter.rs. LogFilter.Matches is about `compile` and
--   `matches`; LogFilter.Index is `LogFilterIndex`, a run of which is any order of the steps of
--   its tasks.
-- - LogView: `LogViewState` of crates/dexdeck-core/src/log_actions.rs.
-- - Workflow: crates/dexdeck-core/src/workflow.rs, over the answers of the step runner and the
--   token.
-- - TestHistory: crates/dexdeck-core/src/test_history.rs.
-- - Config: the configuration of crates/dexdeck-config/src. Config.Validation is the checks of
--   schema.rs, Config.Resolver is resolve.rs, Config.Parse is parse.rs, Config.Loader is
--   loader.rs; Config.Valid and its children say what is valid, Config.Precedence and
--   Config.Sources which source decides a value, Config.Secure what every loaded configuration
--   keeps to, Config.Failures what the failures say.
-- - Storage: error.rs, envelope.rs, atomic.rs, job_history.rs and session.rs of
--   crates/dexdeck-config/src. Storage.Files is atomic.rs, Storage.Hoare what an operation on a
--   disk guarantees, Storage.Atomic and Storage.JobHistory what follows for files;
--   Storage.Session is session.rs.
-- - Logcat: crates/dexdeck-android/src/logcat.rs. Logcat itself is `LogcatParser`,
--   Logcat.Capture what `capture` does with the records of one read; Logcat.Chunks, Logcat.Lines
--   and Logcat.Held are about the parser, Logcat.Window and Logcat.Accounting about the records.
-- - Secret: the registration of patterns of crates/dexdeck-core/src/secret.rs; Secret.Redaction
--   is the redaction of texts and command lines.
-- - DebugDiagnostics: crates/dexdeck-core/src/debug_diagnostics.rs, with its limits in
--   DebugDiagnostics.Bounds.
-- - RunProfile: crates/dexdeck-core/src/run_profile.rs, with the devices of
--   crates/dexdeck-protocol/src/android.rs. RunProfile.Resolve is `resolve`, RunProfile.Choice,
--   RunProfile.Runnable and RunProfile.Redacted what follows.
-- - ModelRefresh: crates/dexdeck-gradle/src/refresh.rs.
-- - ModelWatch: crates/dexdeck-config/src/model_watch.rs.
-- - App: crates/dexdeck-core/src/app.rs.
-- - Runtime: crates/dexdeck-core/src/runtime.rs, with the tokens named by numbers.
-- - Tests: the theorems on concrete inputs.
--
-- Conventions. `usize` and `u64` are 64 bits wide; what saturates or wraps in the source does so
-- here. A `HashMap` is an association list with a decided equality, of which only `lookup`
-- matters; a `HashSet` is a list of which only membership matters. A `BTreeMap` is the list of
-- its entries in the order of the keys (Common.Ordered). Texts are compared whole, and `len`
-- counts UTF-8 bytes. No definition needs fuel: loops are recursion on the list that they walk,
-- and the `while` loop of the log buffer, recursion on the queue that it empties, returns
-- nothing where the loop would not end.
--
-- Arguments. The size of a stored log entry, which the compiler chooses; the `regex` crate and
-- the Unicode tables of `to_lowercase`; the reducer, clock and channel of the runtime; the step
-- runner and the cancellation token of a workflow; the `toml_edit` crate with what `serde`
-- derives, and `read_to_string`, for the configuration; the file system, `tempfile` and
-- `serde_json` for stored state, with what is documented of them and of `BufWriter` as far as
-- one file is concerned (`Documented` in Storage.Atomic: only `persist` changes the file, and at
-- once; what a writer holds back is in the file once it is flushed; what a crash leaves depends
-- on what was synced); what the regular expression of a log line captures, UTF-8, number parsing
-- and `trim` for the log; the channel of the capture; the environment of the process, the
-- decimal form of numbers and the sort of the patterns for a run profile; `char::is_whitespace`.
-- A path is its text.
--
-- Not modelled. Child processes, the terminal, Gradle, adb and the emulator; the reconnects of
-- the log capture and the tracking of process ids; the redaction of streams, and the rendering
-- of the debug diagnostics; the project model's assembler and the workspaces of the terminal
-- interface, which are logic that a later extension may add; the writing and the migration of a
-- configuration file, `environment_references`, the model cache, the saved log filters; custom
-- commands and editors; `JobScheduler::persist_history` and `restore_persisted_history` (which
-- add redaction to the job history on disk), the clipboard, export and recording of
-- log_actions.rs, `ModelInputWatcher` and `is_model_input`, `ActionSender`.
pub mod App
pub mod Common
pub mod Config
pub mod DebugDiagnostics
pub mod Jobs
pub mod LogBuffer
pub mod LogFilter
pub mod LogView
pub mod Logcat
pub mod ModelRefresh
pub mod ModelWatch
pub mod Protocol
pub mod RunProfile
pub mod Runtime
pub mod Secret
pub mod Storage
pub mod TestHistory
pub mod Tests
pub mod Workflow
