-- ===== src/LogBuffer.antt =====
-- crates/dexdeck-core/src/log_buffer.rs: log records in order of arrival, bounded by their bytes.
-- `usize` and `u64` are 64 bits wide; a capacity is at most 2 ^ 30, so no sum of sizes here wraps.
pub mod Eviction
pub mod Invariant
use Prim.Native.String.{len}
use dexdeck.Common.{
  ℕ, suc, ◌+◌, ◌-◌, ◌*◌, ◌^◌, String, Option, none, some, Bool, true, false, ◌&&◌, List, [], ◌∷◌,
  ◌++◌, map, if◌then◌else◌, ltb, leb, saturating_add,
}
use dexdeck.Protocol.Log.{LogRecord}

abbrev pub min_log_buffer_bytes : ℕ
min_log_buffer_bytes = 8 * 1024 * 1024

abbrev pub default_log_buffer_bytes : ℕ
default_log_buffer_bytes = 32 * 1024 * 1024

abbrev pub max_log_buffer_bytes : ℕ
max_log_buffer_bytes = 1024 * 1024 * 1024

pub record SequencedLogRecord : Type 0 where
  pub sequence : ℕ
  pub log_record : LogRecord

pub record LogBufferStats : Type 0 where
  pub capacity_bytes : ℕ
  pub buffered_bytes : ℕ
  pub buffered_entries : ℕ
  pub dropped_entries : ℕ
  pub dropped_bytes : ℕ
  pub dropped_entries_since_clear : ℕ
  pub dropped_bytes_since_clear : ℕ

-- An entry and its size.
abbrev pub Entry : Type 0
Entry = SequencedLogRecord × ℕ

pub record ByteBoundedLogBuffer : Type 0 where
  pub entries : List Entry
  pub stats : LogBufferStats
  pub next_sequence : ℕ

abbrev pub fresh_stats : ℕ → LogBufferStats
fresh_stats capacity = record {
  capacity_bytes = capacity;
  buffered_bytes = 0;
  buffered_entries = 0;
  dropped_entries = 0;
  dropped_bytes = 0;
  dropped_entries_since_clear = 0;
  dropped_bytes_since_clear = 0;
}

abbrev pub empty_buffer : ℕ → ByteBoundedLogBuffer
empty_buffer capacity = record { entries = []; stats = fresh_stats capacity; next_sequence = 1 }

abbrev pub default_buffer : ByteBoundedLogBuffer
default_buffer = empty_buffer default_log_buffer_bytes

-- `none` is the error `InvalidCapacity`.
unfoldable pub new : ℕ → Option ByteBoundedLogBuffer
new capacity =
    if leb min_log_buffer_bytes capacity && leb capacity max_log_buffer_bytes
    then some (empty_buffer capacity)
    else none

unfoldable pub from_mib : ℕ → Option ByteBoundedLogBuffer
unfolding new
from_mib capacity_mib = new (capacity_mib * 1024 * 1024)

unfoldable pub snapshot : ByteBoundedLogBuffer → List SequencedLogRecord
snapshot b = map (λ e. e.0) b.entries

unfoldable pub record_drop : ℕ → LogBufferStats → LogBufferStats
record_drop bytes st = record st {
  dropped_entries = saturating_add st.dropped_entries 1;
  dropped_bytes = saturating_add st.dropped_bytes bytes;
  dropped_entries_since_clear = saturating_add st.dropped_entries_since_clear 1;
  dropped_bytes_since_clear = saturating_add st.dropped_bytes_since_clear bytes;
}

-- The `while` loop of `push`. On an empty queue that still does not fit it would turn for ever:
-- that is `none`.
unfoldable pub evict : ℕ → List Entry → LogBufferStats → Option (List Entry × LogBufferStats)
unfolding record_drop
evict bytes [] st =
    if ltb st.capacity_bytes (st.buffered_bytes + bytes) then none else some ([], st)
evict bytes ((e, n) ∷ es) st =
    let rest = evict bytes es (
      record_drop n (record st {
        buffered_bytes = st.buffered_bytes - n;
        buffered_entries = st.buffered_entries - 1;
      })) in
    if ltb st.capacity_bytes (st.buffered_bytes + bytes) then rest else some ((e, n) ∷ es, st)

abbrev pub text_size : Option String → ℕ
text_size none = 0
text_size (some s) = len s

-- What `push` does once the old entries have made room.
abbrev pub push_back :
    LogRecord
    → ℕ
    → ByteBoundedLogBuffer
    → List Entry × LogBufferStats
    → ByteBoundedLogBuffer × Option ℕ
push_back r bytes b (es, st) = (
  record {
    entries = es ++ (record { sequence = b.next_sequence; log_record = r }, bytes) ∷ [];
    stats = record st {
      buffered_bytes = st.buffered_bytes + bytes;
      buffered_entries = st.buffered_entries + 1;
    };
    next_sequence = saturating_add b.next_sequence 1;
  },
  some b.next_sequence,
)

unfoldable pub clear : ByteBoundedLogBuffer → ByteBoundedLogBuffer
clear b = record b {
  entries = [];
  stats = record b.stats {
    buffered_bytes = 0;
    buffered_entries = 0;
    dropped_entries_since_clear = 0;
    dropped_bytes_since_clear = 0;
  };
}

abbrev map_some {ℓ κ} : {A : Type ℓ} {B : Type κ} → (A → B) → Option A → Option B
map_some f none = none
map_some f (some a) = some (f a)

pub data LogCall : Type 0 where
  pushes : LogRecord → LogCall
  clears : LogCall

-- `entry_size` is `size_of::<SequencedLogRecord>()`, which the compiler chooses.
module _ (entry_size : ℕ) where
  unfoldable pub record_size : LogRecord → ℕ
  record_size r =
      entry_size
      + len r.timestamp
      + len r.tag
      + len r.message
      + text_size r.package_name
      + text_size r.process

  -- `none` if the loop does not end.
  unfoldable pub push : LogRecord → ByteBoundedLogBuffer → Option (ByteBoundedLogBuffer × Option ℕ)
  unfolding record_size record_drop evict
  push r b =
      let bytes = record_size r in
      if ltb b.stats.capacity_bytes bytes
      then some (record b { stats = record_drop bytes b.stats }, none)
      else map_some (push_back r bytes b) (evict bytes b.entries b.stats)

  -- Calls of the buffer one after the other.
  unfoldable pub run_calls : List LogCall → ByteBoundedLogBuffer → Option ByteBoundedLogBuffer
  run_calls [] b = some b
  run_calls (pushes r ∷ cs) b = elim (push r b) [ none ↦ none | some (b', _) ↦ run_calls cs b' ]
  run_calls (clears ∷ cs) b = run_calls cs (clear b)
