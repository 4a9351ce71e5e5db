-- ===== src/Jobs/Lifetime.antt =====
-- All methods together: the invariant over any sequence of calls, and what it means for the roots.
use dexdeck.Common.{
  ℕ, zero, suc, String, String-discrete, Option, none, some, true, false, ◌≡◌, ◌≢◌, refl, arith,
  sym, subst, lookup, ◌⊎◌, inl, inr, contains, Option-cases, Bool-cases, List, [], ◌∷◌, ◌==◌,
}
use dexdeck.Protocol.Diagnostic.{Diagnostic}
use dexdeck.Protocol.Job.{JobId, JobRecord, queued, starting, cancelled, JobState-discrete}
use dexdeck.Jobs.Scheduler.{
  Job, JobRequest, JobFinish, JobScheduler, is_terminal, is_blocked, submit, new, set_state,
  mark_running, append_output, add_diagnostic, cancel, finish, release_root, restore_history,
}
use dexdeck.Jobs.Output
use dexdeck.Jobs.Output.{OutputBuffer}
use dexdeck.Jobs.Steps.{
  At, retire, finished_record, finish-present, cancel-queued, Effect, untouched, changed, new_job,
  submit-started, submit_waiting, mark_running-Effect, append_output-Effect, add_diagnostic-Effect,
  cancel-Effect, absent_untouched,
}
use dexdeck.Jobs.Invariant.Changes.{Replaces, Related-Inv, Related-update}
use dexdeck.Jobs.Invariant.Removal.{retire_waiting-Inv}
use dexdeck.Jobs.Invariant.Release.{At-unique, release-Freed, retire_rootless-Inv, let_go}
use dexdeck.Jobs.Invariant.Promote.{promote-Inv}
use dexdeck.Jobs.Invariant.Submit.{enqueue-Inv, start-Inv}
use dexdeck.Jobs.Invariant.{Waits, Inv}

pub data Call : Type 0 where
  submits : JobRequest → Call
  marks_running cancels : JobId → Call
  appends : JobId → List ℕ → Call
  diagnoses : JobId → Diagnostic → Call
  finishes : JobId → JobFinish → Call
  restores : List JobRecord → Call

unfoldable pub step : JobScheduler → Call → JobScheduler
step s (submits request) = (submit request s).0
step s (marks_running id) = (mark_running id s).0
step s (cancels id) = (cancel id s).0
step s (appends id bytes) = (append_output id bytes s).0
step s (diagnoses id d) = (add_diagnostic id d s).0
step s (finishes id f) = (finish id f s).0
step s (restores records) = restore_history records s

unfoldable pub run : JobScheduler → List Call → JobScheduler
run s [] = s
run s (c ∷ cs) = run (step s c) cs

-- A caller finishes only jobs that have been started.
abbrev pub FinishesStarted : JobScheduler → Call → Type 0
FinishesStarted s (finishes id f) = (j : Job) → At id s j → ¬ Waits j
FinishesStarted s _ = Unit {0}

abbrev pub AllStarted : JobScheduler → List Call → Type 0
AllStarted s [] = Unit {0}
AllStarted s (c ∷ cs) = FinishesStarted s c × AllStarted (step s c) cs

new_output : (capacity : ℕ) → capacity ≢ 0 → (b : OutputBuffer) × (Output.new capacity ≡ some b)
unfolding Output.new
new_output zero p = absurd (p refl)
new_output (suc n) p = (record { bytes = []; capacity = suc n; discarded_bytes = 0 }, ground arith)

module _ (s : JobScheduler) (v : Inv s) where
  pub submit-Inv : (request : JobRequest) → Inv (submit request s).0
  unfolding submit is_terminal
  submit-Inv request = elim (Option-cases (lookup String-discrete request.job_record.id s.jobs)) [
    | inr (j, e) ↦ rw (e, submit) v
    | inl e ↦ elim (Bool-cases (is_terminal request.job_record.state)) [
      | inl t ↦ rw (e, submit, t) v
      | inr t ↦
          let (b, made) = new_output s.output_capacity v.capacity_pos in
          submitted b e t made
            (Bool-cases (is_blocked request.mutating_gradle_root s.active_gradle_roots))
    ]
  ]
    where
      blocked_root :
          (o : Option String) (roots : List String)
          → is_blocked o roots ≡ true
          → (r : String) × (o ≡ some r) × (contains String-discrete r roots ≡ true)
      blocked_root none roots h = cc
      blocked_root (some r) roots h = (r, refl, h)

      submitted :
          (b : OutputBuffer)
          → lookup String-discrete request.job_record.id s.jobs ≡ none
          → is_terminal request.job_record.state ≡ false
          → Output.new s.output_capacity ≡ some b
          → (is_blocked request.mutating_gradle_root s.active_gradle_roots ≡ true)
            ⊎ (is_blocked request.mutating_gradle_root s.active_gradle_roots ≡ false)
          → Inv (submit request s).0
      submitted b e t made (inl busy) =
          let (r, need, used) =
            blocked_root request.mutating_gradle_root s.active_gradle_roots busy in
          subst (λ x. Inv x.0) (sym (submit_waiting request s e t made busy))
            (enqueue-Inv request.job_record.id (new_job request queued b) v e r refl need used refl)
      submitted b e t made (inr idle) =
          subst (λ x. Inv x.0) (sym (submit-started request s e t made idle))
            (start-Inv request.job_record.id (new_job request starting b) v e (λ q. cc) refl idle)

  Effect-Inv : (id : JobId) {j : Job} {t : JobScheduler} → At id s j → Effect id j s t → Inv t
  Effect-Inv id present (untouched e) = subst Inv (sym e) v
  Effect-Inv id {j} present (changed f e root live to from) =
      subst Inv (sym e) (Related-Inv (Related-update id f s keeps v.unfinished) v)
    where
      keeps : (a : Job) → At id s a → Replaces a (f a)
      keeps a h =
          subst (λ x. Replaces x (f x)) (At-unique id s present h)
            (record { same_root = root; still_waits = to; waited = from; live = live })

  finish-Inv :
      (id : JobId) (f : JobFinish) {j : Job} → At id s j → ¬ Waits j → Inv (finish id f s).0
  unfolding finish
  finish-Inv id f {j} present active = elim (Bool-cases (is_terminal f.state)) [
    | inr t ↦ rw (t, finish) v
    | inl t ↦
        subst (λ x. Inv x.0) (sym (finish-present id s present f t (v.unfinished id j present)))
          (released (Option-cases j.mutating_gradle_root))
  ]
    where
      retired : JobScheduler
      retired = retire id (finished_record f) j s

      released :
          (j.mutating_gradle_root ≡ none) ⊎ ((r : String) × (j.mutating_gradle_root ≡ some r))
          → Inv (release_root j.mutating_gradle_root retired).0
      released (inl e) =
          rw e
            (unfold release_root in retire_rootless-Inv id v present active (finished_record f) e)
      released (inr (r, e)) = rw e (
          unfold release_root in
          promote-Inv r (let_go r retired)
            (release-Freed id v present active (finished_record f) r e))

  restore-Inv : (records : List JobRecord) → Inv (restore_history records s)
  unfolding restore_history
  restore-Inv records = record {
    unfinished = v.unfinished;
    exclusive = v.exclusive;
    in_use = v.in_use;
    owned = v.owned;
    waiting_listed = v.waiting_listed;
    listed_waiting = v.listed_waiting;
    capacity_pos = v.capacity_pos;
  }

  cancel-Inv : (id : JobId) {j : Job} → At id s j → Inv (cancel id s).0
  cancel-Inv id {j} present = elim (JobState-discrete j.job_record.state queued) [
    | yes w ↦
        subst (λ x. Inv x.0) (sym (cancel-queued id s present w))
          (retire_waiting-Inv id v present w (set_state cancelled))
    | no n ↦ Effect-Inv id present (cancel-Effect id s present n)
  ]

  by_lookup :
      (id : JobId) {t : JobScheduler}
      → (lookup String-discrete id s.jobs ≡ none → t ≡ s)
      → ((j : Job) → At id s j → Inv t)
      → Inv t
  by_lookup id nobody somebody = elim (Option-cases (lookup String-discrete id s.jobs)) [
    | inl e ↦ subst Inv (sym (nobody e)) v
    | inr (j, e) ↦ somebody j e
  ]

-- Every call keeps the invariant, if it finishes no job that still waits in the queue.
pub step-Inv : (s : JobScheduler) (c : Call) → FinishesStarted s c → Inv s → Inv (step s c)
unfolding step
step-Inv s (submits request) started v = submit-Inv s v request
step-Inv s (marks_running id) started v =
    by_lookup s v id (λ e. (absent_untouched id s e).0)
      (λ j h. Effect-Inv s v id h (mark_running-Effect id s h))
step-Inv s (cancels id) started v =
    by_lookup s v id (λ e. (absent_untouched id s e).3) (λ j h. cancel-Inv s v id h)
step-Inv s (appends id bytes) started v =
    by_lookup s v id (λ e. (absent_untouched id s e).1 bytes)
      (λ j h. Effect-Inv s v id h (append_output-Effect id s h bytes))
step-Inv s (diagnoses id d) started v =
    by_lookup s v id (λ e. (absent_untouched id s e).2 d)
      (λ j h. Effect-Inv s v id h (add_diagnostic-Effect id s h d))
step-Inv s (finishes id f) started v =
    by_lookup s v id (λ e. (absent_untouched id s e).4 f)
      (λ j h. finish-Inv s v id f h (started j h))
step-Inv s (restores records) started v = restore-Inv s v records

run_from-Inv : (s : JobScheduler) (cs : List Call) → AllStarted s cs → Inv s → Inv (run s cs)
unfolding run
run_from-Inv s [] started v = v
run_from-Inv s (c ∷ cs) started v = run_from-Inv (step s c) cs started.1 (step-Inv s c started.0 v)

new-Inv : (capacity : ℕ) {s : JobScheduler} → new capacity ≡ some s → Inv s
unfolding new Output.new lookup contains
new-Inv capacity {s} e = elim (Bool-cases (capacity == 0)) [
  | inl z ↦ absurd (ground arith)
  | inr p ↦ subst Inv (made p) (record {
    unfinished = λ i a h. cc;
    exclusive = λ i k a b r ha. cc;
    in_use = λ i a r ha. cc;
    owned = λ r u. cc;
    waiting_listed = λ i a h. cc;
    listed_waiting = λ i l. cc;
    capacity_pos = λ z. ground arith;
  })
]
  where
    empty : JobScheduler
    empty = record {
      jobs = [];
      queue = [];
      active_gradle_roots = [];
      history = [];
      output_capacity = capacity;
    }

    made : (capacity == 0) ≡ false → empty ≡ s
    made p = ground arith

-- After any calls on a new scheduler, in which `finish` is called for started jobs only: no two
-- started jobs hold the same Gradle root, the roots in use are exactly those of the started jobs
-- that have one, the queue lists exactly the jobs in state `Queued`, each of these waits for a root
-- in use, and no finished job is left in the table.
pub run-Inv :
    (capacity : ℕ) (cs : List Call) {s : JobScheduler}
    → new capacity ≡ some s
    → AllStarted s cs
    → Inv (run s cs)
run-Inv capacity cs {s} e started = run_from-Inv s cs started (new-Inv capacity e)
