-- ===== src/LogView.antt =====
-- crates/dexdeck-core/src/log_actions.rs: `LogViewState`, what a reader of the log looks at.
pub mod Selection
use dexdeck.Common.{
  ℕ, Option, none, some, Bool, true, false, not, ◌||◌, List, [], ◌∷◌, reverse, if◌then◌else◌, ltb,
  leb, find, retain, u64_max,
}
use dexdeck.Protocol.Log.{LogRecord, error, rank}
use dexdeck.LogBuffer.{SequencedLogRecord, ByteBoundedLogBuffer}
use dexdeck.LogBuffer

pub record LogViewState : Type 0 where
  pub paused : Bool
  pub follow : Bool
  pub selected_sequence : Option ℕ

unfoldable pub toggle_pause : LogViewState → LogViewState
toggle_pause v = record v { paused = not v.paused }

unfoldable pub clear : LogViewState → ByteBoundedLogBuffer → LogViewState × ByteBoundedLogBuffer
unfolding LogBuffer.clear
clear v buffer = (record v { selected_sequence = none; follow = true }, LogBuffer.clear buffer)

abbrev pub is_some {ℓ} : {A : Type ℓ} → Option A → Bool
is_some none = false
is_some (some _) = true

unfoldable pub is_error : LogRecord → Bool
is_error r = r.crash_boundary || is_some r.marker || leb (rank error) (rank r.priority)

abbrev pub or_else {ℓ} : {A : Type ℓ} → Option A → A → A
or_else none default = default
or_else (some a) default = a

abbrev pub sequence_of : Option SequencedLogRecord → Option ℕ
sequence_of none = none
sequence_of (some e) = some e.sequence

unfoldable pub select_next_error : List SequencedLogRecord → Bool → LogViewState → LogViewState
unfolding is_error
select_next_error records backwards v =
    let selected = or_else v.selected_sequence (if backwards then u64_max else 0) in
    record v {
      selected_sequence =
          if backwards
          then sequence_of (
              find (λ e. ltb e.sequence selected)
                (retain (λ e. is_error e.log_record) (reverse records)))
          else sequence_of
              (find (λ e. ltb selected e.sequence) (retain (λ e. is_error e.log_record) records));
      follow = false;
    }
