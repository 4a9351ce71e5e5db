-- ===== src/Jobs/Scheduler.antt =====
-- `JobScheduler`. A method takes the scheduler to the new one and its result; a `?` that fails
-- keeps what was changed before it, as a return through `&mut self` does.
use dexdeck.Common.{
  ℕ, ◌+◌, String, String-discrete, Option, none, some, Bool, true, false, not, List, [], ◌∷◌, ◌++◌,
  min, if◌then◌else◌, find, lookup, insert, remove, update, contains, insert_set, remove_all,
  decide,
}
use dexdeck.Common.Bounded.{push_bounded}
use dexdeck.Common.Int.{ℤ}
use dexdeck.Protocol.Diagnostic.{Diagnostic}
use dexdeck.Protocol.Job.{
  JobId, JobState, queued, starting, running, cancelling, succeeded, failed, cancelled,
  JobState-discrete, JobRecord,
}
use dexdeck.Jobs.Output.{OutputBuffer}
use dexdeck.Jobs.Output

abbrev pub job_history_limit : ℕ
job_history_limit = 50

pub record JobRequest : Type 0 where
  pub job_record : JobRecord
  pub mutating_gradle_root : Option String

pub data JobSchedule : Type 0 where
  start_now wait_queued : JobSchedule

pub data CancellationDirective : Type 0 where
  no_directive graceful force : CancellationDirective

pub record JobFinish : Type 0 where
  pub state : JobState
  pub finished_at : String
  pub duration_ms : ℕ
  pub exit_code : Option ℤ

pub record Job : Type 0 where
  pub job_record : JobRecord
  pub mutating_gradle_root : Option String
  pub output : OutputBuffer
  pub cancellation_requests : ℕ  -- u8

pub record JobScheduler : Type 0 where
  pub jobs : List (JobId × Job)
  pub queue : List JobId
  pub active_gradle_roots : List String
  pub history : List JobRecord
  pub output_capacity : ℕ

pub data JobSchedulerError : Type 0 where
  invalid_output_capacity : JobSchedulerError
  duplicate_job unknown_job job_already_finished : JobId → JobSchedulerError
  invalid_transition : JobId → JobState → JobState → JobSchedulerError
  invalid_terminal_state : JobState → JobSchedulerError

pub data Result (A : Type 0) : Type 0 where
  ok : A → Result A
  err : JobSchedulerError → Result A

abbrev pub M : Type 0 → Type 0
M A = JobScheduler → JobScheduler × Result A

abbrev pub then_do : {A B : Type 0} → JobScheduler × Result A → (A → M B) → JobScheduler × Result B
then_do (s, ok a) f = f a s
then_do (s, err e) f = (s, err e)

infixl 5 ◌>>=◌
abbrev pub ◌>>=◌ : {Value Next : Type 0} → M Value → (Value → M Next) → M Next
◌>>=◌ first next before = then_do (first before) next

infixl 5 ◌>>◌
abbrev pub ◌>>◌ : {Next : Type 0} → M (Unit {0}) → M Next → M Next
◌>>◌ first next before = then_do (first before) (λ done. next)

abbrev pub return : {A : Type 0} → A → M A
return a s = (s, ok a)

abbrev pub get : M JobScheduler
get s = (s, ok s)

abbrev pub fail : {A : Type 0} → JobSchedulerError → M A
fail e s = (s, err e)

abbrev pub modify : (JobScheduler → JobScheduler) → M (Unit {0})
modify f s = (f s, ok tt)

abbrev pub guard : Bool → JobSchedulerError → M (Unit {0})
guard true e = return tt
guard false e = fail e

abbrev pub or_fail : {A : Type 0} → Option A → JobSchedulerError → M A
or_fail none e = fail e
or_fail (some a) e = return a

unfoldable pub is_terminal : JobState → Bool
is_terminal succeeded = true
is_terminal failed = true
is_terminal cancelled = true
is_terminal _ = false

abbrev pub is_some : {A : Type 0} → Option A → Bool
is_some none = false
is_some (some _) = true

-- `none` is the error of `OutputBuffer::new`.
unfoldable pub new : ℕ → Option JobScheduler
unfolding Output.new
new output_capacity = elim (Output.new output_capacity) [
  | none ↦ none
  | some _ ↦ some (record {
    jobs = [];
    queue = [];
    active_gradle_roots = [];
    history = [];
    output_capacity = output_capacity;
  })
]

-- `job`, and `job_mut` with the write made through it.
unfoldable pub job : JobId → M Job
job id s = or_fail (lookup String-discrete id s.jobs) (unknown_job id) s

unfoldable pub job_mut : JobId → (Job → Job) → M (Unit {0})
unfolding job
job_mut id f = do _ ← job id; modify (λ s. record s { jobs = update String-discrete id f s.jobs })

abbrev pub set_state : JobState → Job → Job
set_state state j = record j { job_record = record j.job_record { state = state } }

abbrev pub is_blocked : Option String → List String → Bool
is_blocked none roots = false
is_blocked (some root) roots = contains String-discrete root roots

abbrev pub hold_root : Option String → List String → List String
hold_root none roots = roots
hold_root (some root) roots = insert_set String-discrete root roots

-- The two branches of `submit` on `blocked`.
unfoldable pub schedule_job : JobRequest → Bool → M JobSchedule
schedule_job request true = do
  modify (λ s. record s { queue = s.queue ++ request.job_record.id ∷ [] })
  return wait_queued
schedule_job request false = do
  modify (λ s. record s {
    active_gradle_roots = hold_root request.mutating_gradle_root s.active_gradle_roots;
  })
  return start_now

abbrev pub scheduled_state : JobSchedule → JobState
scheduled_state wait_queued = queued
scheduled_state start_now = starting

unfoldable pub submit : JobRequest → M JobSchedule
unfolding schedule_job is_terminal Output.new
submit request = do
  let id = request.job_record.id
  let state = request.job_record.state
  s ← get
  guard (not (is_some (lookup String-discrete id s.jobs))) (duplicate_job id)
  guard (not (is_terminal state)) (invalid_transition id state queued)
  schedule ← schedule_job request (is_blocked request.mutating_gradle_root s.active_gradle_roots)
  output ← or_fail (Output.new s.output_capacity) invalid_output_capacity
  modify (λ s. record s {
    jobs =
        insert String-discrete id
          (record {
            job_record = record request.job_record { state = scheduled_state schedule };
            mutating_gradle_root = request.mutating_gradle_root;
            output = output;
            cancellation_requests = 0;
          })
          s.jobs;
  })
  return schedule

unfoldable pub transition : JobId → JobState → JobState → M (Unit {0})
unfolding job job_mut
transition id expected target = do
  j ← job id
  guard (decide (JobState-discrete j.job_record.state expected))
      (invalid_transition id j.job_record.state target)
  job_mut id (set_state target)

unfoldable pub mark_running : JobId → M (Unit {0})
unfolding transition
mark_running id = transition id starting running

unfoldable pub append_output : JobId → List ℕ → M (Unit {0})
unfolding job job_mut is_terminal
append_output id bytes = do
  j ← job id
  guard (not (is_terminal j.job_record.state)) (job_already_finished id)
  job_mut id (λ j. record j { output = Output.append j.output bytes })

unfoldable pub add_diagnostic : JobId → Diagnostic → M (Unit {0})
unfolding job job_mut is_terminal
add_diagnostic id diagnostic = do
  j ← job id
  guard (not (is_terminal j.job_record.state)) (job_already_finished id)
  job_mut id (λ j. record j {
    job_record = record j.job_record { diagnostics = j.job_record.diagnostics ++ diagnostic ∷ [] };
  })

unfoldable pub push_history : JobRecord → List JobRecord → List JobRecord
push_history r history = push_bounded job_history_limit history r

unfoldable pub record_history : JobId → M (Unit {0})
unfolding job push_history
record_history id = do
  j ← job id
  modify (λ s. record s { history = push_history j.job_record s.history })

abbrev pub remove_job : JobId → M (Unit {0})
remove_job id = modify (λ s. record s { jobs = remove String-discrete id s.jobs })

unfoldable pub cancel_from : JobState → JobId → M CancellationDirective
unfolding job_mut record_history
cancel_from queued id = do
  modify (λ s. record s { queue = remove_all String-discrete id s.queue })
  job_mut id (set_state cancelled)
  record_history id
  remove_job id
  return no_directive
cancel_from starting id = do
  job_mut id (λ j. record (set_state cancelling j) { cancellation_requests = 1 })
  return graceful
cancel_from running id = do
  job_mut id (λ j. record (set_state cancelling j) { cancellation_requests = 1 })
  return graceful
cancel_from cancelling id = do
  job_mut id (λ j. record j { cancellation_requests = min (j.cancellation_requests + 1) 255 })
  return force
cancel_from _ id = return no_directive

unfoldable pub cancel : JobId → M CancellationDirective
unfolding job cancel_from
cancel id = do j ← job id; cancel_from j.job_record.state id

abbrev pub has_root : String → Option Job → Bool
has_root root none = false
has_root root (some j) = elim j.mutating_gradle_root [
  | none ↦ false
  | some r ↦ decide (String-discrete r root)
]

unfoldable pub next_queued_for_root : String → JobScheduler → Option JobId
next_queued_for_root root s = find (λ id. has_root root (lookup String-discrete id s.jobs)) s.queue

unfoldable pub promote : String → Option JobId → M (List JobId)
unfolding job_mut
promote root none = return []
promote root (some next) = do
  modify (λ s. record s { queue = remove_all String-discrete next s.queue })
  job_mut next (set_state starting)
  modify (λ s. record s {
    active_gradle_roots = insert_set String-discrete root s.active_gradle_roots;
  })
  return (next ∷ [])

unfoldable pub release_root : Option String → M (List JobId)
unfolding promote next_queued_for_root
release_root none = return []
release_root (some root) = do
  modify (λ s. record s {
    active_gradle_roots = remove_all String-discrete root s.active_gradle_roots;
  })
  λ s. promote root (next_queued_for_root root s) s

unfoldable pub finish : JobId → JobFinish → M (List JobId)
unfolding job job_mut record_history is_terminal release_root
finish id f = do
  guard (is_terminal f.state) (invalid_terminal_state f.state)
  j ← job id
  guard (not (is_terminal j.job_record.state)) (job_already_finished id)
  job_mut id (λ j. record j {
    job_record = record j.job_record {
      state = f.state;
      finished_at = some f.finished_at;
      duration_ms = some f.duration_ms;
      exit_code = f.exit_code;
    };
  })
  record_history id
  remove_job id
  release_root j.mutating_gradle_root

-- The loop of `restore_history` over the records that are terminal.
unfoldable pub restore_onto : List JobRecord → List JobRecord → List JobRecord
restore_onto history [] = history
restore_onto history (r ∷ rs) =
    restore_onto (if is_terminal r.state then push_history r history else history) rs

unfoldable pub restore_history : List JobRecord → JobScheduler → JobScheduler
unfolding restore_onto
restore_history records s = record s { history = restore_onto [] records }
