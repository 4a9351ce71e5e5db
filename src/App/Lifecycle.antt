-- ===== src/App/Lifecycle.antt =====
-- What one action may do to the application.
use dexdeck.Common.{
  ℕ, ◌≡◌, ◌≢◌, refl, arith, sym, ap, ◌∙◌, subst, ◌⊎◌, inl, inr, String, Option, false, ◌||◌, not,
  Bool-cases, List, [], ◌∷◌, saturating_add, decide,
}
use dexdeck.Protocol.Model.{ProjectModel}
use dexdeck.App.{
  LifecycleState, idle, starting, ready, shutting_down, stopped, LifecycleState-discrete, AppState,
  AppState-discrete, Action, start_requested, effect_finished, cancel_effect_requested,
  worker_failed, shutdown_requested, shutdown_completed, project_model_loaded, Effect, apply,
  reduce, is_empty, finish_effect, fail_worker,
}

-- The action is a model that has been loaded.
abbrev pub IsModelLoaded : Action → Type 0
IsModelLoaded (effect_finished _ (project_model_loaded _)) = Unit {0}
IsModelLoaded _ = ⊥

pub data Moves (a : Action) : LifecycleState → LifecycleState → Type 0 where
  stays : (l : LifecycleState) → Moves a l l
  starts : (project : Option String) → a ≡ start_requested project → Moves a idle starting
  loads : (l : LifecycleState) → IsModelLoaded a → Moves a l ready
  shuts_down : (l : LifecycleState) → a ≡ shutdown_requested → l ≢ stopped → Moves a l shutting_down
  stops : (l : LifecycleState) → a ≡ shutdown_completed → Moves a l stopped

reduce-lifecycle :
    (s : AppState) (a : Action) (now : ℕ)
    → (reduce s a now).state.lifecycle ≡ (apply s a).state.lifecycle
unfolding reduce
reduce-lifecycle s a now =
    elim (Bool-cases (
      not (decide (AppState-discrete (apply s a).state s)) || not (is_empty (apply s a).effects))) [
        | inl t ↦ rw t
        | inr t ↦ rw t
      ]

apply-Moves : (s : AppState) (a : Action) → Moves a s.lifecycle (apply s a).state.lifecycle
unfolding apply finish_effect
apply-Moves s (start_requested project) = elim (LifecycleState-discrete s.lifecycle idle) [
  | yes e ↦
      subst
        (λ l. Moves (start_requested project) l (apply s (start_requested project)).state.lifecycle)
        (sym e) (subst (Moves (start_requested project) idle) (sym (begun e)) (starts project refl))
  | no n ↦ subst (Moves (start_requested project) s.lifecycle) (sym (ignored n)) (stays s.lifecycle)
]
  where
    begun : s.lifecycle ≡ idle → (apply s (start_requested project)).state.lifecycle ≡ starting
    begun e = unfold decide in ground arith

    ignored : s.lifecycle ≢ idle → (apply s (start_requested project)).state.lifecycle ≡ s.lifecycle
    ignored n = unfold decide in ground arith
apply-Moves s (effect_finished id (project_model_loaded m)) = loads s.lifecycle tt
apply-Moves s (effect_finished id outcome) = stays s.lifecycle
apply-Moves s (cancel_effect_requested id) = stays s.lifecycle
apply-Moves s (worker_failed service e) =
    subst (Moves (worker_failed service e) s.lifecycle) (sym kept) (stays s.lifecycle)
  where
    kept : (fail_worker service e s).lifecycle ≡ s.lifecycle
    kept = unfold fail_worker in ground arith
apply-Moves s shutdown_requested = elim (LifecycleState-discrete s.lifecycle stopped) [
  | yes e ↦ subst (Moves shutdown_requested s.lifecycle) (sym (ignored e)) (stays s.lifecycle)
  | no n ↦
      subst (Moves shutdown_requested s.lifecycle) (sym (asked n)) (shuts_down s.lifecycle refl n)
]
  where
    ignored : s.lifecycle ≡ stopped → (apply s shutdown_requested).state.lifecycle ≡ s.lifecycle
    ignored e = unfold decide in ground arith

    asked : s.lifecycle ≢ stopped → (apply s shutdown_requested).state.lifecycle ≡ shutting_down
    asked n = unfold decide in ground arith
apply-Moves s shutdown_completed = stops s.lifecycle refl

-- The lifecycle moves only so: a start request takes `Idle` to `Starting`, a loaded model takes any
-- state to `Ready`, a shutdown request any state but `Stopped` to `ShuttingDown`, the end of the
-- shutdown any state to `Stopped`; whatever else happens, it stays.
pub reduce-Moves :
    (s : AppState) (a : Action) (now : ℕ) → Moves a s.lifecycle (reduce s a now).state.lifecycle
reduce-Moves s a now =
    subst (Moves a s.lifecycle) (sym (reduce-lifecycle s a now)) (apply-Moves s a)

-- The revision tells whether anything happened: either the state is the old one, time stamp
-- included, and no effect is asked for, or the revision is the next one and the time is now.
reduce-revision :
    (s : AppState) (a : Action) (now : ℕ)
    → ((reduce s a now).state ≡ s × ((reduce s a now).effects ≡ []))
      ⊎ (((reduce s a now).state.revision ≡ saturating_add s.revision 1)
          × ((reduce s a now).state.updated_at_ms ≡ now))
unfolding reduce
reduce-revision s a now =
    elim (Bool-cases (
      not (decide (AppState-discrete (apply s a).state s)) || not (is_empty (apply s a).effects))) [
        | inl t ↦ inr (rw t, rw t)
        | inr t ↦ inl (
          rw t (same (AppState-discrete (apply s a).state s) t),
          rw t (none_asked (apply s a).effects t),
        )
      ]
  where
    none_asked :
        (es : List Effect)
        → (not (decide (AppState-discrete (apply s a).state s)) || not (is_empty es)) ≡ false
        → es ≡ []
    none_asked [] h = refl
    none_asked (e ∷ es) h = ground arith

    same :
        (d : Dec ((apply s a).state ≡ s))
        → (not (decide d) || not (is_empty (apply s a).effects)) ≡ false
        → (apply s a).state ≡ s
    same (yes e) h = e
    same (no n) h = absurd (unfold decide in ground arith)

-- A model that is loaded when the application is stopped makes it `Ready` again, and counts as a
-- revision.
stopped_revived :
    (s : AppState) (id : ℕ) (model : ProjectModel) (now : ℕ)
    → s.lifecycle ≡ stopped
    → ((reduce s (effect_finished id (project_model_loaded model)) now).state.lifecycle ≡ ready)
      × ((reduce s (effect_finished id (project_model_loaded model)) now).state.revision
          ≡ saturating_add s.revision 1)
unfolding apply finish_effect
stopped_revived s id model now e =
    let a = effect_finished id (project_model_loaded model) in
    let revived : (reduce s a now).state.lifecycle ≡ ready = reduce-lifecycle s a now in
    (
      revived,
      elim (reduce-revision s a now) [
        | inl (same, _) ↦
            let back : (reduce s a now).state.lifecycle ≡ s.lifecycle =
              ap (λ t. t.lifecycle) same in
            absurd (apart (sym revived ∙ back ∙ e))
        | inr (next, _) ↦ next
      ],
    )
  where
    apart : ready ≡ stopped → ⊥
    apart q = cc
