-- ===== src/Tests/Requests.antt =====
-- Workflows, model refreshes, the watch of the model's files and the application.
use dexdeck.Common.{
  ℕ, inl, inr, none, some, ◌≡◌, refl, arith, [], ◌∷◌, ◌++◌, length, true, false, ◌==◌,
  if◌then◌else◌, any,
}
use dexdeck.Protocol.Model.{ProjectModel, AndroidModule, application, empty}
use dexdeck.Workflow.{
  Workflow, WorkflowRequest, Surroundings, execute, steps, destructive, install_step,
  locate_or_assemble_artifact, started, all_finished, confirmation_required, step,
}
use dexdeck.Workflow.Traces.{
  reports, last_reports, ran_here, execute_complete, execute_stops, execute_unconfirmed,
}
use dexdeck.ModelRefresh.{ModelRefresh, current, new, begin, complete}
use dexdeck.ModelRefresh.Sessions.{begins, fails, run, supersedes, complete-begin, run-model}
use dexdeck.ModelWatch.{
  ModelWatchState, SessionSelection, restored, mark_changed, poll, refresh, idle, keep_if,
}
use dexdeck.ModelWatch.Debounce.{polls, polls_refresh}
use dexdeck.ModelWatch.Selection.{IsIn, restored-IsIn}
use dexdeck.Storage.Session.{
  SessionState, selection_of, is_one_of, retain_valid, retain_valid-restored,
}
use dexdeck.App.{
  AppState, Action, reduce, SubsystemState, ProjectState, ready, stopped, effect_finished,
  project_model_loaded, shutdown_requested,
}
use dexdeck.App
use dexdeck.App.Lifecycle.{Moves, reduce-Moves}

abbrev quiet : ℕ → Surroundings
quiet _ = record { cancelled_before = false; failure = none; cancelled_after = false }

abbrev install_request : WorkflowRequest
install_request = record {
  workflow = Workflow.install;
  confirmed = false;
  release_confirmation_required = false;
}

execute_complete_example : execute quiet install_request ≡ record {
  events =
      started (length (steps Workflow.install))
      ∷ reports (length (steps Workflow.install)) 1 (steps Workflow.install) (all_finished ∷ []);
  ran = steps Workflow.install;
  outcome = none;
}
execute_complete_example =
    execute_complete quiet install_request (unfold destructive in refl)
      (unfold steps in ((refl, refl, refl), ((refl, refl, refl), tt)))

-- The second step fails.
abbrev broken : ℕ → Surroundings
broken n = record {
  cancelled_before = false;
  failure = if n == 1 then some "no device" else none;
  cancelled_after = false;
}

execute_stops_example : execute broken install_request ≡ record {
  events =
      started (length (steps Workflow.install))
      ∷ reports
          (length (steps Workflow.install))
          1
          (locate_or_assemble_artifact ∷ [])
          (last_reports (length (steps Workflow.install)) 2 install_step (broken 1));
  ran = (locate_or_assemble_artifact ∷ []) ++ ran_here install_step (broken 1);
  outcome = some (step install_step "no device");
}
execute_stops_example =
    execute_stops broken install_request (locate_or_assemble_artifact ∷ []) [] install_step
      (unfold destructive in refl) (unfold steps in refl) ((refl, refl, refl), tt) refl

abbrev uninstall_request : WorkflowRequest
uninstall_request = record {
  workflow = Workflow.uninstall;
  confirmed = false;
  release_confirmation_required = false;
}

execute_unconfirmed_example :
    execute quiet uninstall_request
    ≡ record { events = []; ran = []; outcome = some confirmation_required }
execute_unconfirmed_example =
    execute_unconfirmed quiet uninstall_request (unfold steps in refl) refl

abbrev first : ModelRefresh ℕ
first = new (some 7)

complete-begin_example :
    let now = run (begin first).0 (fails 1 true ∷ []) in
    complete (begin first).1 9 now ≡ (
      if any (supersedes {Model = ℕ}) (fails 1 true ∷ [])
      then (now, false)
      else (record now { model = some 9; freshness = current }, true))
complete-begin_example = complete-begin first (fails 1 true ∷ []) 9 (unfold new in omega arith)

run-model_example : (run first (begins ∷ fails 1 true ∷ begins ∷ [])).model ≡ first.model
run-model_example = run-model first (begins ∷ fails 1 true ∷ begins ∷ []) refl

abbrev watch : ModelWatchState
watch = record { debounce = 350; changed_at = none }

polls_refresh_example :
    let waiting = polls ((200, false) ∷ (600, true) ∷ []) (mark_changed 100 watch).0 in
    ((poll 700 false waiting).1 ≡ refresh) × ((poll 701 true (poll 700 false waiting).0).1 ≡ idle)
polls_refresh_example =
    polls_refresh watch 100 ((200, false) ∷ (600, true) ∷ []) 700 701 true (omega arith)
      (inl (omega arith), (inr refl, tt)) (omega arith)

abbrev app_module : AndroidModule
app_module = record {
  path = ":app";
  build_id = "main";
  project_directory = "app";
  kind = application;
  namespace = none;
  compile_sdk = some 36;
  target_sdk = none;
  minimum_sdk = none;
  flavor_dimensions = [];
  product_flavors = [];
  build_types = [];
  variants = [];
}

abbrev app_model : ProjectModel
app_model = record (unfold empty in empty "app") { modules = app_module ∷ [] }

-- The module is still there, the variant is not.
abbrev selection : SessionSelection
selection = record { module_path = some ":app"; variant = some "debug" }

restored-IsIn_example : IsIn app_model (restored selection app_model)
restored-IsIn_example = restored-IsIn selection app_model

abbrev session : SessionState
session = record {
  module_path = some ":app";
  variant = some "debug";
  device = some "emulator-5554";
  workspace = none;
  log_filter = none;
  reduced_motion = true;
}

retain_valid-restored_example :
    (selection_of (retain_valid (some app_model) ("phone" ∷ []) session)
      ≡ restored (selection_of session) app_model)
    × ((retain_valid (some app_model) ("phone" ∷ []) session).device
        ≡ keep_if (is_one_of ("phone" ∷ [])) session.device)
retain_valid-restored_example = retain_valid-restored app_model ("phone" ∷ []) session

abbrev inactive : SubsystemState
inactive = record { status = App.inactive; last_error = none }

abbrev stopped_state : AppState
stopped_state = record {
  lifecycle = stopped;
  project = record { root = none; model = none; model_status = App.unavailable; last_error = none };
  devices = inactive;
  emulator = inactive;
  logcat = inactive;
  jobs = inactive;
  tests = inactive;
  ui = record { selected_module = none; selected_variant = none; selected_device = none };
  revision = 4;
  updated_at_ms = 10;
}

reduce-Moves_example :
    Moves shutdown_requested stopped (reduce stopped_state shutdown_requested 11).state.lifecycle
reduce-Moves_example = reduce-Moves stopped_state shutdown_requested 11
