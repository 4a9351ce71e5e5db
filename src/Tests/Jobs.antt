-- ===== src/Tests/Jobs.antt =====
-- The scheduler on two builds of one Gradle root.
use dexdeck.Common.{
  ℕ, String-discrete, some, ◌≡◌, refl, arith, subst, List, [], ◌∷◌, lookup, length, decide, insert,
  insert_set, contains, false, text_dec, ◌-◌, drop, ◌+◌,
}
use dexdeck.Protocol.Job.{JobId, JobState, queued, starting, running, succeeded}
use dexdeck.Jobs.Scheduler.{
  Job, JobScheduler, ok, new, submit, schedule_job, is_terminal, finish, restore_history,
  next_queued_for_root,
}
use dexdeck.Jobs.Output
use dexdeck.Jobs.Output.{append_all, stream}
use dexdeck.Jobs.Steps.{At}
use dexdeck.Jobs.Invariant.{Inv, NeedsRoot}
use dexdeck.Jobs.Lifetime.{Call, submits, finishes, step, run, AllStarted, run-Inv}
use dexdeck.Jobs.Output.Stream.{append_all-new_Holds}
use dexdeck.Jobs.History.{restore_history-drop, terminal_records}
use dexdeck.Jobs.Handover.{finish_hands_over, finish_waiting-Unsafe, Unsafe}
use dexdeck.Tests.Fixtures.{job_record, request, success}

abbrev empty : JobScheduler
empty = record {
  jobs = [];
  queue = [];
  active_gradle_roots = [];
  history = [];
  output_capacity = 8;
}

new-empty : new 8 ≡ some empty
unfolding new Output.new
new-empty = refl

abbrev two_builds : List Call
two_builds = submits (request "a" "root") ∷ submits (request "b" "root") ∷ []

abbrev build_job : JobId → JobState → Job
build_job id state = record {
  job_record = job_record id state;
  mutating_gradle_root = some "root";
  output = record { bytes = []; capacity = 8; discarded_bytes = 0 };
  cancellation_requests = 0;
}

-- What the two builds come to: one runs, the other waits.
abbrev busy : JobScheduler
busy = record {
  jobs = ("a", build_job "a" starting) ∷ ("b", build_job "b" queued) ∷ [];
  queue = "b" ∷ [];
  active_gradle_roots = "root" ∷ [];
  history = [];
  output_capacity = 8;
}

run-two_builds : run empty two_builds ≡ busy
unfolding run step submit schedule_job is_terminal Output.new lookup String-discrete text_dec decide
    insert insert_set contains
run-two_builds = refl

busy-Inv : Inv busy
busy-Inv = subst Inv run-two_builds (run-Inv 8 two_builds new-empty (tt, (tt, tt)))

abbrev then_finish : List Call
then_finish =
    submits (request "a" "root") ∷ submits (request "b" "root") ∷ finishes "a" success ∷ []

then_finish-AllStarted : AllStarted empty then_finish
unfolding step submit schedule_job is_terminal Output.new lookup String-discrete text_dec decide
    insert insert_set contains
then_finish-AllStarted = (tt, (tt, (λ j h w. cc, tt)))

run-Inv_example : Inv (run empty then_finish)
run-Inv_example = run-Inv 8 then_finish new-empty then_finish-AllStarted

a_present : At "a" busy (build_job "a" starting)
unfolding lookup String-discrete text_dec
a_present = refl

b_present : At "b" busy (build_job "b" queued)
unfolding lookup String-discrete text_dec
b_present = refl

b_next : next_queued_for_root "root" busy ≡ some "b"
unfolding next_queued_for_root lookup String-discrete text_dec decide
b_next = refl

finish_hands_over_example :
    ((finish "a" success busy).1 ≡ ok ("b" ∷ []))
    × ((n : Job) × At "b" (finish "a" success busy).0 n
        × NeedsRoot n "root"
        × (n.job_record.state ≡ starting))
    × (contains String-discrete "b" (finish "a" success busy).0.queue ≡ false)
unfolding is_terminal
finish_hands_over_example =
    finish_hands_over "a" busy-Inv a_present success refl "root" refl (λ w. cc) b_next

finish_waiting-Unsafe_example :
    Unsafe "b" busy-Inv b_present success
      (unfold is_terminal in refl)
      "root"
      refl
      refl
      (finish "b" success busy).0
finish_waiting-Unsafe_example =
    finish_waiting-Unsafe "b" busy-Inv b_present success (unfold is_terminal in refl) "root" refl
      refl

abbrev chunks : List (List ℕ)
chunks = (1 ∷ 2 ∷ []) ∷ (3 ∷ []) ∷ []

append_all-new_Holds_example :
    ((append_all (record { bytes = []; capacity = 2; discarded_bytes = 0 }) chunks).bytes
      ≡ drop (length (stream chunks) - 2) (stream chunks))
    × ((append_all
            (record { bytes = []; capacity = 2; discarded_bytes = 0 })
            chunks).discarded_bytes
          + length
              (append_all (record { bytes = []; capacity = 2; discarded_bytes = 0 }) chunks).bytes
        ≡ length (stream chunks))
append_all-new_Holds_example =
    append_all-new_Holds 2 chunks (unfold Output.new in refl) (omega arith)

restore_history-drop_example :
    restore_history (job_record "a" succeeded ∷ job_record "b" running ∷ []) busy ≡ record busy {
      history =
          drop
            (length (terminal_records (job_record "a" succeeded ∷ job_record "b" running ∷ []))
              - 50)
            (terminal_records (job_record "a" succeeded ∷ job_record "b" running ∷ []));
    }
restore_history-drop_example =
    restore_history-drop (job_record "a" succeeded ∷ job_record "b" running ∷ []) busy
