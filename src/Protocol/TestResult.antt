-- ===== src/Protocol/TestResult.antt =====
-- crates/dexdeck-protocol/src/test_result.rs
use dexdeck.Common.{ℕ, String, Option, List}
use dexdeck.Protocol.Diagnostic.{SourceLocation}

pub record TestSelection : Type 0 where
  pub module_name : Option String
  pub package_name : Option String
  pub class_name : Option String
  pub method : Option String

pub data TestOutcome : Type 0 where
  passed failed skipped : TestOutcome

pub record TestCaseResult : Type 0 where
  pub suite : String
  pub class_name : String
  pub name : String
  pub outcome : TestOutcome
  pub duration_ms : ℕ
  pub failure_message : Option String
  pub stack_trace : Option String
  pub source : Option SourceLocation

pub record TestRunSummary : Type 0 where
  pub passed : ℕ
  pub failed : ℕ
  pub skipped : ℕ
  pub duration_ms : ℕ

pub record TestRunResult : Type 0 where
  pub selection : TestSelection
  pub summary : TestRunSummary
  pub cases : List TestCaseResult
