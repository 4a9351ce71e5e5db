-- ===== src/Protocol/Job.antt =====
-- crates/dexdeck-protocol/src/job.rs
use dexdeck.Common.{ℕ, String, Option, List}
use dexdeck.Common.Int.{ℤ}
use dexdeck.Protocol.Diagnostic.{Diagnostic}

abbrev pub JobId : Type 0
JobId = String

pub data JobKind : Type 0 where
  project_model gradle build install launch run test logcat emulator custom_command : JobKind

pub data JobState : Type 0 where
  queued starting running cancelling succeeded failed cancelled : JobState

pub JobState-discrete : Discrete JobState
JobState-discrete = hlevel

pub record JobRecord : Type 0 where
  pub id : JobId
  pub kind : JobKind
  pub state : JobState
  pub project_identity : String
  pub module_name : Option String
  pub variant : Option String
  pub device : Option String
  pub command_summary : List String
  pub started_at : String
  pub finished_at : Option String
  pub duration_ms : Option ℕ
  pub exit_code : Option ℤ
  pub diagnostics : List Diagnostic
