-- ===== src/Protocol/Error.antt =====
-- crates/dexdeck-protocol/src/cli.rs: the report of a failed operation.
use dexdeck.Common.{String, Option, Bool, String-discrete}

pub data ErrorCode : Type 0 where
  invalid_configuration project_not_found unsupported_project bridge_failed bridge_protocol
        gradle_failed tool_missing sdk_missing sdk_invalid device_unavailable device_unauthorized
        device_ambiguous emulator_failed emulator_boot_timeout artifact_missing artifact_invalid
        confirmation_required trust_required permission_denied cache_invalid cancelled
        logcat_unavailable logcat_capture_failed logcat_invalid_filter logcat_export_failed
        logcat_recording_failed internal :
      ErrorCode

pub data ErrorCategory : Type 0 where
  configuration project_detection unsupported_project gradle_bridge gradle_operation tool_missing
        device emulator adb logcat test cache permission internal :
      ErrorCategory

pub record OperationContext : Type 0 where
  pub operation : String
  pub project : Option String
  pub module_name : Option String
  pub variant : Option String
  pub device : Option String
  pub previous_model_usable : Bool
  pub raw_output_reference : Option String

pub record OperationError : Type 0 where
  pub code : ErrorCode
  pub category : ErrorCategory
  pub message : String
  pub context : OperationContext
  pub suggested_action : Option String

pub OperationError-discrete : Discrete OperationError
OperationError-discrete = hlevel String-discrete
