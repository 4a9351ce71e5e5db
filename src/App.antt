-- ===== src/App.antt =====
-- crates/dexdeck-core/src/app.rs: the state of the application and its reducer.
pub mod Lifecycle
use dexdeck.Common.{
  ℕ, ◌+◌, String, Option, none, some, Bool, true, false, ◌||◌, not, List, [], ◌∷◌, if◌then◌else◌,
  saturating_add, decide, String-discrete, ℕ_discrete,
}
use dexdeck.Protocol.Discrete.{ProjectModel-discrete}
use dexdeck.Protocol.Error.{OperationError, OperationError-discrete}
use dexdeck.Protocol.Model.{ProjectModel}

pub data LifecycleState : Type 0 where
  idle starting ready shutting_down stopped : LifecycleState

pub data ModelStatus : Type 0 where
  unavailable discovering current stale failed : ModelStatus

pub record ProjectState : Type 0 where
  pub root : Option String
  pub model : Option ProjectModel
  pub model_status : ModelStatus
  pub last_error : Option OperationError

pub data SubsystemStatus : Type 0 where
  inactive starting active failed : SubsystemStatus

pub record SubsystemState : Type 0 where
  pub status : SubsystemStatus
  pub last_error : Option OperationError

pub record UiState : Type 0 where
  pub selected_module : Option String
  pub selected_variant : Option String
  pub selected_device : Option String

pub record AppState : Type 0 where
  pub lifecycle : LifecycleState
  pub project : ProjectState
  pub devices : SubsystemState
  pub emulator : SubsystemState
  pub logcat : SubsystemState
  pub jobs : SubsystemState
  pub tests : SubsystemState
  pub ui : UiState
  pub revision : ℕ
  pub updated_at_ms : ℕ

pub LifecycleState-discrete : Discrete LifecycleState
LifecycleState-discrete = hlevel

pub AppState-discrete : Discrete AppState
AppState-discrete =
    hlevel (String-discrete, ℕ_discrete, ProjectModel-discrete, OperationError-discrete)

abbrev pub EffectId : Type 0
EffectId = ℕ

pub data ServiceKind : Type 0 where
  config project_model jobs android tests diagnostics logcat : ServiceKind

pub data EffectOutcome : Type 0 where
  completed : EffectOutcome
  project_detected : String → EffectOutcome
  project_model_loaded : ProjectModel → EffectOutcome
  failed : OperationError → EffectOutcome
  cancelled : EffectOutcome

pub data Action : Type 0 where
  start_requested : Option String → Action
  effect_finished : EffectId → EffectOutcome → Action
  cancel_effect_requested : EffectId → Action
  worker_failed : ServiceKind → OperationError → Action
  shutdown_requested shutdown_completed : Action

pub data Effect : Type 0 where
  discover_project : Option String → Effect
  load_project_cache refresh_project_model watch_project_files : String → Effect
  start_gradle_job : List String → Effect
  track_devices : Effect
  start_logcat : String → Effect
  stop_logcat : Effect
  start_emulator : String → Bool → Effect
  stop_emulator : String → Effect
  install_artifact launch_application stop_application : String → String → Effect
  run_tests : List String → Effect
  open_source_location : String → Option ℕ → Effect
  write_shared_config write_local_config : Effect
  export_logs : String → Effect

pub record Reduction : Type 0 where
  pub state : AppState
  pub effects : List Effect

unfoldable pub completed_effect_id : Action → Option EffectId
completed_effect_id (effect_finished id _) = some id
completed_effect_id _ = none

unfoldable pub cancellation_target : Action → Option EffectId
cancellation_target (cancel_effect_requested id) = some id
cancellation_target _ = none

abbrev pub keep : AppState → Reduction
keep s = record { state = s; effects = [] }

abbrev pub fail_subsystem : OperationError → SubsystemState
fail_subsystem e = record { status = SubsystemStatus.failed; last_error = some e }

unfoldable pub fail_worker : ServiceKind → OperationError → AppState → AppState
fail_worker jobs e s = record s { jobs = fail_subsystem e }
fail_worker android e s = record s { devices = fail_subsystem e }
fail_worker tests e s = record s { tests = fail_subsystem e }
fail_worker logcat e s = record s { logcat = fail_subsystem e }
fail_worker _ e s = record s { project = record s.project { last_error = some e } }

unfoldable pub finish_effect : EffectOutcome → AppState → Reduction
finish_effect (project_detected root) s = record {
  state = record s { project = record s.project { root = some root } };
  effects = load_project_cache root ∷ refresh_project_model root ∷ [];
}
finish_effect (project_model_loaded model) s = keep (record s {
  project = record s.project { model = some model; model_status = current; last_error = none };
  lifecycle = ready;
})
finish_effect (failed e) s = keep (record s {
  project = record s.project { last_error = some e; model_status = ModelStatus.failed };
})
finish_effect completed s = keep s
finish_effect cancelled s = keep s

-- The `match` on the action, with its guards.
unfoldable pub apply : AppState → Action → Reduction
unfolding finish_effect fail_worker
apply s (start_requested project) =
    if decide (LifecycleState-discrete s.lifecycle idle)
    then record {
      state = record s {
        lifecycle = starting;
        project = record s.project { root = project; model_status = discovering };
      };
      effects = discover_project project ∷ [];
    }
    else keep s
apply s (effect_finished _ outcome) = finish_effect outcome s
apply s (cancel_effect_requested _) = keep s
apply s (worker_failed service e) = keep (fail_worker service e s)
apply s shutdown_requested =
    if decide (LifecycleState-discrete s.lifecycle stopped)
    then keep s
    else keep (record s { lifecycle = shutting_down })
apply s shutdown_completed = keep (record s { lifecycle = stopped })

abbrev pub is_empty : List Effect → Bool
is_empty [] = true
is_empty (_ ∷ _) = false

unfoldable pub reduce : AppState → Action → ℕ → Reduction
unfolding apply
reduce s a now_ms =
    let r = apply s a in
    if not (decide (AppState-discrete r.state s)) || not (is_empty r.effects)
    then record r {
      state = record r.state { revision = saturating_add s.revision 1; updated_at_ms = now_ms };
    }
    else r
