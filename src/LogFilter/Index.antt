-- ===== src/LogFilter/Index.antt =====
-- `LogFilterIndex`: `rebuild` takes a generation and starts a task, which filters, checks that its
-- generation is still the one requested, and then writes the snapshot. The check and the write are
-- two steps, between which other tasks and calls may run: a run is any order of these steps. The
-- snapshot that a task will write depends on nothing that changes, so it is computed at the start.
-- Generations are `u64`, which wrap. `to_string` is the text of a `regex::Error`.
pub mod Publication
pub mod Race
use dexdeck.Common.{
  ℕ, ◌+◌, ◌%◌, ◌^◌, ◌<◌, ◌≡◌, ◌≢◌, refl, sym, ap, subst, arith, ◌∙◌, ◌⊎◌, inl, inr, String, Option,
  none, some, Bool, true, false, List, [], ◌∷◌, map, if◌then◌else◌, ◌==◌, retain, lookup, insert,
  remove, lookup-insert, lookup-remove, ℕ_discrete, u64_max, Option-cases, Bool-cases, ite,
}
use dexdeck.Protocol.Log.{LogFilterSpec}
use dexdeck.LogBuffer.{SequencedLogRecord}
use dexdeck.LogFilter.{Result, ok, err, CompiledLogFilter, compile, matches}

pub record LogFilterSnapshot : Type 0 where
  pub generation : ℕ
  pub sequences : List ℕ
  pub error : Option String

-- How far a task is, with the snapshot that it will write.
pub data Rebuild : Type 0 where
  checking writing : LogFilterSnapshot → Rebuild

pub record LogFilterIndex : Type 0 where
  pub requested_generation : ℕ
  pub snapshot : LogFilterSnapshot
  pub rebuilds : List (ℕ × Rebuild)

pub data Event : Type 0 where
  requests : List SequencedLogRecord → LogFilterSpec → Event
  checks writes : ℕ → Event

unfoldable pub check : ℕ → LogFilterSnapshot → LogFilterIndex → LogFilterIndex
check g s i =
    if i.requested_generation == g
    then record i { rebuilds = insert ℕ_discrete g (writing s) i.rebuilds }
    else record i { rebuilds = remove ℕ_discrete g i.rebuilds }

unfoldable pub write : ℕ → LogFilterSnapshot → LogFilterIndex → LogFilterIndex
write g s i = record i { snapshot = s; rebuilds = remove ℕ_discrete g i.rebuilds }

-- A step of a task that is not there, or not so far, does nothing.
abbrev pub on_check : ℕ → Option Rebuild → LogFilterIndex → LogFilterIndex
on_check g (some (checking s)) i = check g s i
on_check g _ i = i

abbrev pub on_write : ℕ → Option Rebuild → LogFilterIndex → LogFilterIndex
on_write g (some (writing s)) i = write g s i
on_write g _ i = i

module _ {Regex E : Type 0} (to_lowercase : String → String)
    (build : String → Bool → Result E Regex) (is_match : Regex → String → Bool)
    (to_string : E → String) where
  unfoldable pub rebuilt : ℕ → List SequencedLogRecord → LogFilterSpec → LogFilterSnapshot
  rebuilt generation records spec = elim (compile to_lowercase build is_match spec) [
    | ok filter ↦ record {
      generation = generation;
      sequences =
          map (λ entry. entry.sequence)
            (retain (λ entry. matches to_lowercase build is_match filter entry.log_record) records);
      error = none;
    }
    | err e ↦ record { generation = generation; sequences = []; error = some (to_string e) }
  ]

  -- `rebuild`, up to the start of its task.
  unfoldable pub rebuild : List SequencedLogRecord → LogFilterSpec → LogFilterIndex → LogFilterIndex
  unfolding rebuilt
  rebuild records spec i =
      let generation = (i.requested_generation + 1) % 2 ^ 64 in
      record i {
        requested_generation = generation;
        rebuilds =
            insert ℕ_discrete generation (checking (rebuilt generation records spec)) i.rebuilds;
      }

  unfoldable pub step : LogFilterIndex → Event → LogFilterIndex
  unfolding rebuild
  step i (requests records spec) = rebuild records spec i
  step i (checks g) = on_check g (lookup ℕ_discrete g i.rebuilds) i
  step i (writes g) = on_write g (lookup ℕ_discrete g i.rebuilds) i

  unfoldable pub run : LogFilterIndex → List Event → LogFilterIndex
  unfolding step
  run i [] = i
  run i (e ∷ es) = run (step i e) es
