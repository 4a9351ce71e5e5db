-- ===== src/Tests/Fixtures.antt =====
-- Small jobs, log records and models for the examples.
use dexdeck.Common.{String, none, some, List, [], ◌∷◌, false}
use dexdeck.Protocol.Job.{JobId, JobRecord, JobState, queued, succeeded, build}
use dexdeck.Protocol.Log.{LogRecord, info}
use dexdeck.Protocol.TestResult.{TestCaseResult, TestOutcome}
use dexdeck.Jobs.Scheduler.{JobRequest, JobFinish}
use dexdeck.TestHistory.{RecordedTestRun}

abbrev pub job_record : JobId → JobState → JobRecord
job_record id state = record {
  id = id;
  kind = build;
  state = state;
  project_identity = "app";
  module_name = none;
  variant = none;
  device = none;
  command_summary = "gradlew" ∷ [];
  started_at = "noon";
  finished_at = none;
  duration_ms = none;
  exit_code = none;
  diagnostics = [];
}

abbrev pub request : JobId → String → JobRequest
request id root = record { job_record = job_record id queued; mutating_gradle_root = some root }

abbrev pub success : JobFinish
success = record { state = succeeded; finished_at = "one"; duration_ms = 60; exit_code = none }

abbrev pub log_record : String → LogRecord
log_record message = record {
  timestamp = "noon";
  process_id = 1;
  thread_id = 1;
  user_id = none;
  priority = info;
  tag = "App";
  message = message;
  package_name = none;
  process = none;
  continuation = false;
  crash_boundary = false;
  group_id = none;
  marker = none;
  truncated = false;
}

abbrev pub test_case : String → TestOutcome → TestCaseResult
test_case name outcome = record {
  suite = "unit";
  class_name = "ParserTest";
  name = name;
  outcome = outcome;
  duration_ms = 3;
  failure_message = none;
  stack_trace = none;
  source = none;
}

abbrev pub test_run : JobId → List TestCaseResult → RecordedTestRun
test_run id cases = record {
  job_id = id;
  task = ":app:test";
  arbitrary_task = false;
  result = record {
    selection = record {
      module_name = some ":app";
      package_name = none;
      class_name = none;
      method = none;
    };
    summary = record { passed = 1; failed = 1; skipped = 0; duration_ms = 6 };
    cases = cases;
  };
}
