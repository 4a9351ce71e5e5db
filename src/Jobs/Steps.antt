-- ===== src/Jobs/Steps.antt =====
-- What each method of the scheduler does when it succeeds, and what it leaves alone when it fails.
use dexdeck.Common.{
  ℕ, ◌+◌, String-discrete, none, some, true, false, List, [], ◌∷◌, ◌++◌, ◌≡◌, ◌≢◌, refl, arith, min,
  lookup, insert, remove, update, remove_all, lookup-update, inl, inr, Bool-cases, decide,
}
use dexdeck.Protocol.Diagnostic.{Diagnostic}
use dexdeck.Protocol.Job.{
  JobId, JobState, queued, starting, running, cancelling, cancelled, JobState-discrete,
}
use dexdeck.Jobs.Output.{OutputBuffer}
use dexdeck.Jobs.Output
use dexdeck.Jobs.Scheduler.{
  Job, JobRequest, JobFinish, JobScheduler, ok, job, job_mut, set_state, is_terminal, is_blocked,
  hold_root, submit, schedule_job, start_now, wait_queued, mark_running, append_output,
  add_diagnostic, cancel, cancel_from, finish, push_history, release_root, no_directive,
  record_history,
}

-- The job that a method's argument names.
abbrev pub At : JobId → JobScheduler → Job → Type 0
At id s j = lookup String-discrete id s.jobs ≡ some j

abbrev pub finished_record : JobFinish → Job → Job
finished_record f j = record j {
  job_record = record j.job_record {
    state = f.state;
    finished_at = some f.finished_at;
    duration_ms = some f.duration_ms;
    exit_code = f.exit_code;
  };
}

abbrev pub new_job : JobRequest → JobState → OutputBuffer → Job
new_job request state output = record {
  job_record = record request.job_record { state = state };
  mutating_gradle_root = request.mutating_gradle_root;
  output = output;
  cancellation_requests = 0;
}

module _ (request : JobRequest) (s : JobScheduler) {b : OutputBuffer}
    (absent : lookup String-discrete request.job_record.id s.jobs ≡ none)
    (live : is_terminal request.job_record.state ≡ false)
    (made : Output.new s.output_capacity ≡ some b) where
  pub submit-started :
      is_blocked request.mutating_gradle_root s.active_gradle_roots ≡ false
      → submit request s ≡ (
        record s {
          active_gradle_roots = hold_root request.mutating_gradle_root s.active_gradle_roots;
          jobs = insert String-discrete request.job_record.id (new_job request starting b) s.jobs;
        },
        ok start_now,
      )
  unfolding submit schedule_job
  submit-started idle = rw idle (ground arith)

  pub submit_waiting :
      is_blocked request.mutating_gradle_root s.active_gradle_roots ≡ true
      → submit request s ≡ (
        record s {
          queue = s.queue ++ request.job_record.id ∷ [];
          jobs = insert String-discrete request.job_record.id (new_job request queued b) s.jobs;
        },
        ok wait_queued,
      )
  unfolding submit schedule_job
  submit_waiting busy = rw busy (ground arith)

-- A job that leaves the table, with its last record at the end of the history.
abbrev pub retire : JobId → (Job → Job) → Job → JobScheduler → JobScheduler
retire id f j s = record s {
  jobs = remove String-discrete id (update String-discrete id f s.jobs);
  history = push_history (f j).job_record s.history;
}

module _ (id : JobId) (s : JobScheduler) {j : Job} (present : At id s j) where
  job_mut-present :
      (f : Job → Job)
      → job_mut id f s ≡ (record s { jobs = update String-discrete id f s.jobs }, ok tt)
  unfolding job_mut job
  job_mut-present f = ground arith

  lookup-mutated :
      (f : Job → Job) → lookup String-discrete id (update String-discrete id f s.jobs) ≡ some (f j)
  lookup-mutated f = ground (arith, lookup-update String-discrete id id f s.jobs)

  pub finish-present :
      (f : JobFinish)
      → is_terminal f.state ≡ true
      → is_terminal j.job_record.state ≡ false
      → finish id f s ≡ release_root j.mutating_gradle_root (retire id (finished_record f) j s)
  unfolding finish job job_mut record_history
  finish-present f t u = ground (arith, lookup-mutated (finished_record f))

  pub cancel-queued :
      j.job_record.state ≡ queued
      → cancel id s ≡ (
        retire id
            (set_state cancelled)
            j
            (record s { queue = remove_all String-discrete id s.queue }),
        ok no_directive,
      )
  unfolding cancel job cancel_from job_mut record_history
  cancel-queued q = ground (arith, lookup-mutated (set_state cancelled))

-- What a method that found the job `j` does to it: nothing, or a change of this job alone.
pub data Effect (id : JobId) (j : Job) (s t : JobScheduler) : Type 0 where
  untouched : t ≡ s → Effect id j s t
  changed :
      (f : Job → Job)
      → t ≡ record s { jobs = update String-discrete id f s.jobs }
      → (f j).mutating_gradle_root ≡ j.mutating_gradle_root
      → is_terminal (f j).job_record.state ≡ false
      → (j.job_record.state ≡ queued → (f j).job_record.state ≡ queued)
      → ((f j).job_record.state ≡ queued → j.job_record.state ≡ queued)
      → Effect id j s t

module _ (id : JobId) (s : JobScheduler) {j : Job} (present : At id s j) where
  pub mark_running-Effect : Effect id j s (mark_running id s).0
  unfolding mark_running job_mut job decide is_terminal
  mark_running-Effect = elim (JobState-discrete j.job_record.state starting) [
    | yes e ↦
        changed (set_state running) (ground arith) refl refl (λ q. ground arith) (λ q. ground arith)
    | no n ↦ untouched (ground arith)
  ]

  pub append_output-Effect : (bytes : List ℕ) → Effect id j s (append_output id bytes s).0
  unfolding append_output job_mut job
  append_output-Effect bytes = elim (Bool-cases (is_terminal j.job_record.state)) [
    | inl t ↦ untouched (ground arith)
    | inr t ↦
        changed (λ j. record j { output = Output.append j.output bytes }) (ground arith) refl t
          (λ q. q) (λ q. q)
  ]

  pub add_diagnostic-Effect : (d : Diagnostic) → Effect id j s (add_diagnostic id d s).0
  unfolding add_diagnostic job_mut job
  add_diagnostic-Effect d = elim (Bool-cases (is_terminal j.job_record.state)) [
    | inl t ↦ untouched (ground arith)
    | inr t ↦
        changed
          (λ j. record j {
            job_record = record j.job_record { diagnostics = j.job_record.diagnostics ++ d ∷ [] };
          })
          (ground arith) refl t (λ q. q) (λ q. q)
  ]

  abbrev start_cancelling : Job → Job
  start_cancelling j = record (set_state cancelling j) { cancellation_requests = 1 }

  abbrev count_cancel : Job → Job
  count_cancel j = record j { cancellation_requests = min (j.cancellation_requests + 1) 255 }

  cancel-from :
      (state : JobState)
      → j.job_record.state ≡ state
      → state ≢ queued
      → Effect id j s (cancel_from state id s).0
  unfolding cancel_from job_mut job is_terminal
  cancel-from queued e n = absurd (n refl)
  cancel-from starting e n =
      changed start_cancelling (ground arith) refl refl (λ q. ground arith) (λ q. ground arith)
  cancel-from running e n =
      changed start_cancelling (ground arith) refl refl (λ q. ground arith) (λ q. ground arith)
  cancel-from cancelling e n =
      changed count_cancel (ground arith) refl (ground arith) (λ q. q) (λ q. q)
  cancel-from _ e n = untouched refl

  cancel-present : cancel id s ≡ cancel_from j.job_record.state id s
  unfolding cancel job
  cancel-present = ground arith

  pub cancel-Effect : j.job_record.state ≢ queued → Effect id j s (cancel id s).0
  cancel-Effect n = rw cancel-present (cancel-from j.job_record.state refl n)

-- A method that names no job of the table changes nothing.
module _ (id : JobId) (s : JobScheduler) (absent : lookup String-discrete id s.jobs ≡ none) where
  pub absent_untouched :
      ((mark_running id s).0 ≡ s)
      × ((bytes : List ℕ) → (append_output id bytes s).0 ≡ s)
      × ((d : Diagnostic) → (add_diagnostic id d s).0 ≡ s)
      × ((cancel id s).0 ≡ s)
      × ((f : JobFinish) → (finish id f s).0 ≡ s)
  unfolding mark_running append_output add_diagnostic cancel finish job
  absent_untouched =
      (ground arith, λ bytes. ground arith, λ d. ground arith, ground arith, λ f. ground arith)
