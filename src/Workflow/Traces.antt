-- ===== src/Workflow/Traces.antt =====
-- Which steps run, and what is reported of them.
use dexdeck.Common.{
  ℕ, zero, suc, ◌+◌, ◌≤◌, ◌<◌, min, ◌≡◌, refl, arith, ap, ◌∙◌, subst, String, Option, none, some,
  Bool, true, false, not, ◌&&◌, ◌||◌, List, [], ◌∷◌, ◌++◌, length, length-append, any,
  if◌then◌else◌,
}
use dexdeck.Workflow.{
  WorkflowStep, WorkflowRequest, WorkflowEvent, started, step_started, step_finished, all_finished,
  was_cancelled, error, WorkflowError, confirmation_required, cancelled, step, uninstall_step,
  clear_data_step, Surroundings, destructive, steps, run_steps, execute, u32_max, send,
}

-- Nothing keeps a step from being finished.
abbrev pub Fine : Surroundings → Type 0
Fine e = (e.cancelled_before ≡ false) × (e.failure ≡ none) × (e.cancelled_after ≡ false)

-- The reports of steps that are all finished.
abbrev pub reports : ℕ → ℕ → List WorkflowStep → List WorkflowEvent → List WorkflowEvent
reports total index [] rest = rest
reports total index (s ∷ ss) rest =
    step_started index total s ∷ step_finished index total s ∷ reports total (suc index) ss rest

-- Why a step is the last: what is reported, and what is returned. A cancellation during the step
-- goes before its failure.
abbrev pub last_reports : ℕ → ℕ → WorkflowStep → Surroundings → List WorkflowEvent
last_reports total index s e =
    if e.cancelled_before
    then was_cancelled ∷ []
    else step_started index total s
      ∷ (if e.cancelled_after then was_cancelled ∷ [] else reported e.failure)
  where
    reported : Option String → List WorkflowEvent
    reported none = []
    reported (some m) = error s m ∷ []

abbrev pub verdict : WorkflowStep → Surroundings → Option WorkflowError
verdict s e =
    if e.cancelled_before
    then some cancelled
    else (if e.cancelled_after then some cancelled else failed e.failure)
  where
    failed : Option String → Option WorkflowError
    failed none = none
    failed (some m) = some (step s m)

abbrev pub ran_here : WorkflowStep → Surroundings → List WorkflowStep
ran_here s e = if e.cancelled_before then [] else s ∷ []

abbrev pub AllFine : (ℕ → Surroundings) → ℕ → ℕ → Type 0
AllFine around offset zero = Unit {0}
AllFine around offset (suc n) = Fine (around offset) × AllFine around (suc offset) n

finish_all :
    (around : ℕ → Surroundings) (total offset : ℕ) (ss : List WorkflowStep)
    → AllFine around offset (length ss)
    → offset + length ss ≤ u32_max
    → run_steps around total offset ss ≡ record {
      events = reports total (suc offset) ss (all_finished ∷ []);
      ran = ss;
      outcome = none;
    }
unfolding run_steps
finish_all around total offset [] h fits = refl
finish_all around total offset (s ∷ ss) h fits =
    ground (arith, finish_all around total (suc offset) ss h.1)

-- The step `s` is the first that something keeps from being finished.
stop_at :
    (around : ℕ → Surroundings) (total offset k : ℕ) (done later : List WorkflowStep)
    (s : WorkflowStep) {w : WorkflowError}
    → AllFine around offset (length done)
    → k ≡ offset + length done
    → k < u32_max
    → verdict s (around k) ≡ some w
    → run_steps around total offset (done ++ s ∷ later) ≡ record {
      events = reports total (suc offset) done (last_reports total (suc k) s (around k));
      ran = done ++ ran_here s (around k);
      outcome = some w;
    }
unfolding run_steps
stop_at around total offset k [] later s {w} h at fits bad =
    subst
      (λ (i : ℕ). run_steps around total i (s ∷ later) ≡ record {
        events = last_reports total (suc k) s (around k);
        ran = ran_here s (around k);
        outcome = some w;
      })
      (to_offset k at) (here (around k) refl)
  where
    to_offset : (k : ℕ) → k ≡ offset + 0 → k ≡ offset
    to_offset k e = omega arith

    here :
        (e : Surroundings)
        → around k ≡ e
        → run_steps around total k (s ∷ later) ≡ record {
          events = last_reports total (suc k) s (around k);
          ran = ran_here s (around k);
          outcome = some w;
        }
    here e q = ground arith
stop_at around total offset k (d ∷ done) later s {w} h at fits bad =
    ground (arith, stop_at around total (suc offset) k done later s {w = w} h.1)

module _ (around : ℕ → Surroundings) (request : WorkflowRequest) where
  -- The caller has confirmed, or need not.
  abbrev pub Allowed : Type 0
  Allowed =
      ((destructive request.workflow || request.release_confirmation_required)
        && not request.confirmed)
      ≡ false

  steps_few : length (steps request.workflow) ≤ 4
  unfolding steps
  steps_few = ground arith

  total_few : min (length (steps request.workflow)) u32_max ≡ length (steps request.workflow)
  total_few = omega (arith, steps_few)

  -- With nothing in the way every step of the workflow runs once, in order, each reported when it
  -- starts and when it ends, with its index from 1 and the true total, and the outcome is success.
  pub execute_complete :
      Allowed
      → AllFine around 0 (length (steps request.workflow))
      → execute around request ≡ record {
        events =
            started (length (steps request.workflow))
            ∷ reports
                (length (steps request.workflow))
                1
                (steps request.workflow)
                (all_finished ∷ []);
        ran = steps request.workflow;
        outcome = none;
      }
  unfolding execute
  execute_complete ok fine =
      rw (ok, execute, total_few)
        (ap (send (started (length (steps request.workflow)))) (
          finish_all around (length (steps request.workflow)) 0 (steps request.workflow) fine
            (omega (arith, steps_few))))

  -- The first step that is cancelled or fails is the last: the steps before it have run and are
  -- reported as finished, it has run unless the cancellation came before it, its end is reported
  -- by one event, no later step runs, and its cancellation or failure is the outcome.
  pub execute_stops :
      (done later : List WorkflowStep) (s : WorkflowStep) {w : WorkflowError}
      → Allowed
      → steps request.workflow ≡ done ++ s ∷ later
      → AllFine around 0 (length done)
      → verdict s (around (length done)) ≡ some w
      → execute around request ≡ record {
        events =
            started (length (steps request.workflow))
            ∷ reports (length (steps request.workflow)) 1 done (
                last_reports
                  (length (steps request.workflow))
                  (suc (length done))
                  s
                  (around (length done)));
        ran = done ++ ran_here s (around (length done));
        outcome = some w;
      }
  unfolding execute
  execute_stops done later s ok split fine bad =
      let total = length (steps request.workflow) in
      rw (ok, execute, total_few)
        (ap (send (started total)) (
          ap (run_steps around total 0) split
          ∙ stop_at around total 0 (length done) done later s fine (omega arith) (short split) bad))
    where
      short : steps request.workflow ≡ done ++ s ∷ later → length done < u32_max
      short e = omega (arith, steps_few, ap length e, length-append done (s ∷ later))

-- A step that takes something from the device.
abbrev pub erases : WorkflowStep → Bool
erases uninstall_step = true
erases clear_data_step = true
erases _ = false

-- Without a confirmation no workflow with a step that uninstalls the application or clears its data
-- does anything at all: no step runs, nothing is reported, and the caller is asked to confirm.
pub execute_unconfirmed :
    (around : ℕ → Surroundings) (request : WorkflowRequest)
    → any erases (steps request.workflow) ≡ true
    → request.confirmed ≡ false
    → execute around request
      ≡ record { events = []; ran = []; outcome = some confirmation_required }
unfolding execute destructive steps
execute_unconfirmed around request e n = ground arith
