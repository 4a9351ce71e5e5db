-- ===== src/TestHistory.antt =====
-- crates/dexdeck-core/src/test_history.rs: the recorded test runs, and what is run again.
pub mod Plans
use dexdeck.Common.Bounded.{push_bounded}
use dexdeck.Common.{
  String, String-discrete, Option, none, some, Bool, true, false, not, ◌&&◌, List, [], ◌∷◌, ◌++◌,
  map, if◌then◌else◌, find, any, retain, last?, decide, ℕ,
}
use dexdeck.Protocol.Job.{JobId}
use dexdeck.Protocol.TestResult.{
  TestSelection, TestOutcome, passed, failed, skipped, TestCaseResult, TestRunResult,
}

abbrev pub test_run_history_limit : ℕ
test_run_history_limit = 50

pub record RecordedTestRun : Type 0 where
  pub job_id : JobId
  pub task : String
  pub arbitrary_task : Bool
  pub result : TestRunResult

pub data TestRerunKind : Type 0 where
  all_tests failed_tests : TestRerunKind
  selected : TestSelection → TestRerunKind

pub record TestRerunPlan : Type 0 where
  pub source_job_id : JobId
  pub task : String
  pub selections : List TestSelection

pub record TestRunHistory : Type 0 where
  pub runs : List RecordedTestRun

pub data TestRerunError : Type 0 where
  no_previous_run no_failed_tests arbitrary_task_cannot_reconstruct_failures method_without_class
        selection_not_in_run :
      TestRerunError
  unknown_job : JobId → TestRerunError

pub data Result {ℓ} (Value : Type ℓ) : Type ℓ where
  err : TestRerunError → Result Value
  ok : Value → Result Value

infixl 5 ◌>>=◌
abbrev pub ◌>>=◌ {ℓ κ} :
    {Value : Type ℓ} {Next : Type κ} → Result Value → (Value → Result Next) → Result Next
err failure >>= next = err failure
ok value >>= next = next value

infixl 5 ◌>>◌
abbrev pub ◌>>◌ {κ} : {Next : Type κ} → Result (Unit {0}) → Result Next → Result Next
err failure >> next = err failure
ok tt >> next = next

-- An early `return Err(failure)` unless the test holds.
abbrev pub guard : (test : Bool) (failure : TestRerunError) → Result (Unit {0})
guard false failure = err failure
guard true failure = ok tt

abbrev pub ok_or {ℓ} : {A : Type ℓ} → Option A → TestRerunError → Result A
ok_or none e = err e
ok_or (some a) e = ok a

-- `record`, a reserved word.
unfoldable pub record_run : RecordedTestRun → TestRunHistory → TestRunHistory
record_run run h = record h { runs = push_bounded test_run_history_limit h.runs run }

abbrev pub latest : TestRunHistory → Option RecordedTestRun
latest h = last? h.runs

abbrev pub is_failed : TestOutcome → Bool
is_failed failed = true
is_failed _ = false

abbrev pub is_some {ℓ} : {A : Type ℓ} → Option A → Bool
is_some none = false
is_some (some _) = true

abbrev pub is_empty {ℓ} : {A : Type ℓ} → List A → Bool
is_empty [] = true
is_empty (_ ∷ _) = false

-- `is_none_or(|name| name == text)`
abbrev pub none_or_equal : Option String → String → Bool
none_or_equal none text = true
none_or_equal (some name) text = decide (String-discrete name text)

unfoldable pub run_of : Option JobId → TestRunHistory → Result RecordedTestRun
run_of none h = ok_or (latest h) no_previous_run
run_of (some id) h =
    ok_or (find (λ r. decide (String-discrete r.job_id id)) h.runs) (unknown_job id)

abbrev pub failure_selection : RecordedTestRun → TestCaseResult → TestSelection
failure_selection run c = record {
  module_name = run.result.selection.module_name;
  package_name = none;
  class_name = some c.class_name;
  method = some c.name;
}

abbrev pub failed_selections : RecordedTestRun → List TestSelection
failed_selections run =
    map (failure_selection run) (retain (λ c. is_failed c.outcome) run.result.cases)

abbrev pub selects : TestSelection → TestCaseResult → Bool
selects s c = none_or_equal s.class_name c.class_name && none_or_equal s.method c.name

unfoldable pub selections_of : RecordedTestRun → TestRerunKind → Result (List TestSelection)
selections_of run all_tests = ok (run.result.selection ∷ [])
selections_of run failed_tests = do
  guard (not run.arbitrary_task) arbitrary_task_cannot_reconstruct_failures
  let selections = failed_selections run
  guard (not (is_empty selections)) no_failed_tests
  ok selections
selections_of run (selected s) = do
  guard (not (is_some s.method && not (is_some s.class_name))) method_without_class
  guard (any (selects s) run.result.cases) selection_not_in_run
  ok (s ∷ [])

unfoldable pub plan : Option JobId → TestRerunKind → TestRunHistory → Result TestRerunPlan
unfolding run_of selections_of
plan job_id kind h = do
  run ← run_of job_id h
  selections ← selections_of run kind
  ok (record { source_job_id = run.job_id; task = run.task; selections = selections })
