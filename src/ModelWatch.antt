-- ===== src/ModelWatch.antt =====
-- crates/dexdeck-config/src/model_watch.rs: the debounce of file changes, and what is left of the
-- user's selection when a new model arrives. Instants and durations are counts of one small unit.
pub mod Debounce
pub mod Selection
use dexdeck.Common.{
  ℕ, ◌-◌, String, String-discrete, Option, none, some, Bool, true, false, if◌then◌else◌, List, [],
  ◌∷◌, ltb, any, find, decide,
}
use dexdeck.Protocol.Model.{ProjectModel, AndroidModule, Variant}

pub record SessionSelection : Type 0 where
  pub module_path : Option String
  pub variant : Option String

abbrev pub is_at : String → AndroidModule → Bool
is_at path m = decide (String-discrete m.path path)

abbrev pub has_variant : String → AndroidModule → Bool
has_variant name m = any (λ v. decide (String-discrete v.name name)) m.variants

abbrev pub keep_if {ℓ} : {A : Type ℓ} → (A → Bool) → Option A → Option A
keep_if p none = none
keep_if p (some a) = if p a then some a else none

-- `and_then`
abbrev pub and_then {ℓ κ} : {A : Type ℓ} {B : Type κ} → Option A → (A → Option B) → Option B
and_then none f = none
and_then (some a) f = f a

unfoldable pub restored : SessionSelection → ProjectModel → SessionSelection
restored s model =
    let kept = keep_if (λ path. any (is_at path) model.modules) s.module_path in
    record {
      module_path = kept;
      variant = and_then kept λ path. and_then s.variant λ selected.
          and_then (find (is_at path) model.modules)
            λ m. if has_variant selected m then some selected else none;
    }

pub data WatchDecision : Type 0 where
  idle stale refresh delayed_for_gradle : WatchDecision

pub record ModelWatchState : Type 0 where
  pub debounce : ℕ
  pub changed_at : Option ℕ

unfoldable pub new : ℕ → ModelWatchState
new debounce = record { debounce = debounce; changed_at = none }

unfoldable pub mark_changed : ℕ → ModelWatchState → ModelWatchState × WatchDecision
mark_changed now s = (record s { changed_at = some now }, stale)

-- `saturating_duration_since` is the truncated difference.
unfoldable pub poll : ℕ → Bool → ModelWatchState → ModelWatchState × WatchDecision
poll now gradle_busy s = elim s.changed_at [
  | none ↦ (s, idle)
  | some at ↦
      if ltb (now - at) s.debounce
      then (s, stale)
      else (if gradle_busy
          then (s, delayed_for_gradle)
          else (record s { changed_at = none }, refresh))
]
