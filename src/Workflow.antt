-- ===== src/Workflow.antt =====
-- crates/dexdeck-core/src/workflow.rs. What the executor sees of its surroundings (the answers of
-- the cancellation token and of the step runner) is an argument; what it sends to the channel, and
-- the steps that it hands to the runner, are returned in order. A failed send is ignored there.
pub mod Traces
use dexdeck.Common.{
  ℕ, zero, suc, ◌+◌, String, Option, none, some, Bool, true, false, not, ◌&&◌, ◌||◌, List, [], ◌∷◌,
  ◌++◌, if◌then◌else◌, length, min, saturating_add, ◌^◌, ◌-◌,
}

pub data Workflow : Type 0 where
  build install launch run rerun reinstall clean_reinstall stop uninstall clear_data : Workflow

pub data WorkflowStep : Type 0 where
  assemble locate_or_assemble_artifact install_step launch_step force_stop uninstall_step
        clear_data_step :
      WorkflowStep

pub record WorkflowRequest : Type 0 where
  pub workflow : Workflow
  pub confirmed : Bool
  pub release_confirmation_required : Bool

pub data WorkflowEvent : Type 0 where
  started : ℕ → WorkflowEvent
  step_started step_finished : ℕ → ℕ → WorkflowStep → WorkflowEvent
  all_finished was_cancelled : WorkflowEvent
  error : WorkflowStep → String → WorkflowEvent

pub data WorkflowError : Type 0 where
  confirmation_required cancelled : WorkflowError
  step : WorkflowStep → String → WorkflowError

-- The two readings of `cancel.is_cancelled()` round a step, and what the runner answers.
pub record Surroundings : Type 0 where
  pub cancelled_before : Bool
  pub failure : Option String
  pub cancelled_after : Bool

-- `none` is success.
pub record Trace : Type 0 where
  pub events : List WorkflowEvent
  pub ran : List WorkflowStep
  pub outcome : Option WorkflowError

abbrev pub u32_max : ℕ
u32_max = 2 ^ 32 - 1

abbrev pub send : WorkflowEvent → Trace → Trace
send e t = record t { events = e ∷ t.events }

abbrev pub run_step : WorkflowStep → Trace → Trace
run_step s t = record t { ran = s ∷ t.ran }

abbrev pub halt : Option WorkflowError → Trace
halt o = record { events = []; ran = []; outcome = o }

unfoldable pub destructive : Workflow → Bool
destructive clean_reinstall = true
destructive uninstall = true
destructive clear_data = true
destructive _ = false

unfoldable pub steps : Workflow → List WorkflowStep
steps build = assemble ∷ []
steps install = locate_or_assemble_artifact ∷ install_step ∷ []
steps launch = launch_step ∷ []
steps run = assemble ∷ install_step ∷ launch_step ∷ []
steps rerun = force_stop ∷ launch_step ∷ []
steps reinstall = assemble ∷ install_step ∷ launch_step ∷ []
steps clean_reinstall = assemble ∷ uninstall_step ∷ install_step ∷ launch_step ∷ []
steps stop = force_stop ∷ []
steps uninstall = uninstall_step ∷ []
steps clear_data = clear_data_step ∷ []

-- The answer to the runner's result, after the second reading of the token.
abbrev pub settle : Option String → ℕ → ℕ → WorkflowStep → Trace → Trace
settle (some message) index total s rest = send (error s message) (halt (some (step s message)))
settle none index total s rest = send (step_finished index total s) rest

-- The `for` loop from the step at `offset`.
unfoldable pub run_steps : (ℕ → Surroundings) → ℕ → ℕ → List WorkflowStep → Trace
run_steps around total offset [] = send all_finished (halt none)
run_steps around total offset (s ∷ ss) =
    let now = around offset in
    let index = min (saturating_add offset 1) u32_max in
    let rest = run_steps around total (suc offset) ss in
    if now.cancelled_before
    then send was_cancelled (halt (some cancelled))
    else send (step_started index total s) (
        run_step s (
          if now.cancelled_after
          then send was_cancelled (halt (some cancelled))
          else settle now.failure index total s rest))

unfoldable pub execute : (ℕ → Surroundings) → WorkflowRequest → Trace
unfolding destructive steps run_steps
execute around request =
    let todo = steps request.workflow in
    let total = min (length todo) u32_max in
    if (destructive request.workflow || request.release_confirmation_required)
      && not request.confirmed
    then halt (some confirmation_required)
    else send (started total) (run_steps around total 0 todo)
