-- ===== src/Tests/Logs.antt =====
-- The log buffer and the history of test runs.
use mathlib.Core.List.{Memᴰ}
use dexdeck.LogBuffer.{snapshot}
use dexdeck.Protocol.Log.{LogRecord}
use dexdeck.LogView.{LogViewState, select_next_error}
use dexdeck.LogView.Selection.{Next, Previous, select_next_error-Next}
use dexdeck.Common.{Bool, true, false, u64_max}
use dexdeck.Common.{
  ℕ, ◌+◌, ◌-◌, ◌<◌, ◌⊎◌, none, some, ◌≡◌, refl, arith, List, [], ◌∷◌, ◌++◌, drop, saturating_add,
}
use dexdeck.Protocol.TestResult.{passed, failed}
use dexdeck.LogBuffer.{
  Entry, LogBufferStats, ByteBoundedLogBuffer, new, min_log_buffer_bytes, run_calls, LogCall,
  pushes, clears, push, record_size, fresh_stats, empty_buffer,
}
use dexdeck.LogBuffer.Eviction.{Evicted, evict-Evicted, sizes}
use dexdeck.LogBuffer.Invariant.{Inv, new-Inv, run_calls-Inv, push_appends}
use dexdeck.TestHistory.{
  TestRerunPlan, RecordedTestRun, plan, ok, run_of, selections_of, failed_tests, failed_selections,
}
use dexdeck.TestHistory.Plans.{plan_sound, Meant, Covers}
use dexdeck.Tests.Fixtures.{log_record, test_case, test_run}

new_empty : new min_log_buffer_bytes ≡ some (empty_buffer min_log_buffer_bytes)
unfolding new
new_empty = refl

abbrev three_calls : List LogCall
three_calls = pushes (log_record "one") ∷ clears ∷ pushes (log_record "two") ∷ []

run_calls-Inv_example :
    (b : ByteBoundedLogBuffer) × (run_calls 200 three_calls (empty_buffer min_log_buffer_bytes)
      ≡ some b)
    × Inv 200 b
run_calls-Inv_example = run_calls-Inv 200 min_log_buffer_bytes three_calls new_empty (omega arith)

empty-Inv : Inv 200 (empty_buffer min_log_buffer_bytes)
empty-Inv = new-Inv 200 min_log_buffer_bytes new_empty

push_appends_example :
    (b : ByteBoundedLogBuffer) × (gone : ℕ) × (push 200
        (log_record "one")
        (empty_buffer min_log_buffer_bytes)
      ≡ some (b, some 1))
    × (b.entries
        ≡ drop gone []
          ++ (
            record { sequence = 1; log_record = log_record "one" },
            record_size 200 (log_record "one"),
          )
            ∷ [])
    × ((gone ≡ 0)
        ⊎ (min_log_buffer_bytes < sizes (drop (gone - 1) []) + record_size 200 (log_record "one")))
    × (b.stats.dropped_entries ≡ saturating_add 0 gone)
    × Inv 200 b
push_appends_example =
    push_appends 200 (log_record "one") empty-Inv (unfold record_size in omega arith) (omega arith)

abbrev two_entries : List Entry
two_entries =
    (record { sequence = 1; log_record = log_record "one" }, 4)
    ∷ (record { sequence = 2; log_record = log_record "two" }, 4)
    ∷ []

abbrev two_stats : LogBufferStats
two_stats = record (fresh_stats 10) { buffered_bytes = 8; buffered_entries = 2 }

evict-Evicted_example : Evicted 5 two_entries two_stats
evict-Evicted_example = evict-Evicted 5 two_entries two_stats (omega arith) (omega arith)

abbrev one_failure : RecordedTestRun
one_failure = test_run "t" (test_case "reads" passed ∷ test_case "prints" failed ∷ [])

abbrev failures_plan : TestRerunPlan
failures_plan = record {
  source_job_id = "t";
  task = ":app:test";
  selections = failed_selections one_failure;
}

failures_planned : plan none failed_tests (record { runs = one_failure ∷ [] }) ≡ ok failures_plan
unfolding plan run_of selections_of
failures_planned = refl

plan_sound_example :
    (run : RecordedTestRun) × Memᴰ run (one_failure ∷ [])
    × Meant none (record { runs = one_failure ∷ [] }) run
    × ("t" ≡ run.job_id)
    × (":app:test" ≡ run.task)
    × Covers failed_tests run (failed_selections one_failure)
plan_sound_example =
    plan_sound none failed_tests (record { runs = one_failure ∷ [] }) failures_planned

abbrev view : LogViewState
view = record { paused = false; follow = true; selected_sequence = none }

abbrev crash : LogRecord
crash = record (log_record "two") { crash_boundary = true }

-- An ordinary record and a crash.
abbrev with_crash : ByteBoundedLogBuffer
with_crash = record {
  entries =
      (record { sequence = 1; log_record = log_record "one" }, record_size 200 (log_record "one"))
      ∷ (record { sequence = 2; log_record = crash }, record_size 200 crash)
      ∷ [];
  stats = record (fresh_stats min_log_buffer_bytes) {
    buffered_bytes = record_size 200 (log_record "one") + record_size 200 crash;
    buffered_entries = 2;
  };
  next_sequence = 3;
}

with_crash-Inv : Inv 200 with_crash
unfolding record_size
with_crash-Inv = record {
  describes = omega arith;
  bounded = omega arith;
  rising = (omega arith, (omega arith, tt));
  below = (omega arith, (omega arith, tt));
  sized = (refl, (refl, tt));
  capacity_low = omega arith;
  capacity_high = omega arith;
}

select_next_error-Next_example :
    Next
      (snapshot with_crash)
      0
      (select_next_error (snapshot with_crash) false view).selected_sequence
    × Previous
        (snapshot with_crash)
        u64_max
        (select_next_error (snapshot with_crash) true view).selected_sequence
    × ((backwards : Bool) → (select_next_error (snapshot with_crash) backwards view).follow ≡ false)
select_next_error-Next_example = select_next_error-Next 200 with_crash view with_crash-Inv
