-- ===== src/Protocol/Diagnostic.antt =====
-- crates/dexdeck-protocol/src/diagnostic.rs. Paths are texts.
use dexdeck.Common.{ℕ, String, Option}

pub data DiagnosticSeverity : Type 0 where
  info warning error : DiagnosticSeverity

pub data DiagnosticCategory : Type 0 where
  configuration project gradle kotlin java resource manifest adb test lint internal :
      DiagnosticCategory

pub record SourceLocation : Type 0 where
  pub file : String
  pub line : Option ℕ
  pub column : Option ℕ

pub record Diagnostic : Type 0 where
  pub severity : DiagnosticSeverity
  pub category : DiagnosticCategory
  pub message : String
  pub location : Option SourceLocation
  pub module_name : Option String
  pub variant : Option String
  pub task : Option String
  pub raw_context : Option String
  pub suggested_action : Option String
