-- ===== src/Jobs/Output.antt =====
-- `OutputBuffer`: the last bytes of a job's output, and how many were let go.
-- `usize` and `u64` are 64 bits wide, so `usize` to `u64` is the identity.
pub mod Stream
use dexdeck.Common.{
  ℕ, ◌+◌, ◌-◌, ◌≤◌, min, ◌≡◌, refl, ap, ◌∙◌, List, [], ◌∷◌, ◌++◌, Option, none, some, arith,
  if◌then◌else◌, ◌==◌, saturating_add, u64_max, length, drop, length-append, length-drop, drop_past,
  drop-append_within, drop-append_past, drop-drop,
}

pub record OutputBuffer : Type 0 where
  pub bytes : List ℕ
  pub capacity : ℕ
  pub discarded_bytes : ℕ

-- `none` is the error `InvalidOutputCapacity`.
unfoldable pub new : ℕ → Option OutputBuffer
new capacity =
    if capacity == 0
    then none
    else some (record { bytes = []; capacity = capacity; discarded_bytes = 0 })

unfoldable pub append : OutputBuffer → List ℕ → OutputBuffer
append b input =
    let overflow = saturating_add (length b.bytes) (length input) - b.capacity in
    let discarded = min overflow (length b.bytes) in
    let input_start = length input - b.capacity in
    record b {
      bytes = drop discarded b.bytes ++ drop input_start input;
      discarded_bytes = saturating_add b.discarded_bytes overflow;
    }

-- Chunks in the order in which they arrive.
unfoldable pub append_all : OutputBuffer → List (List ℕ) → OutputBuffer
append_all b [] = b
append_all b (c ∷ cs) = append_all (append b c) cs

abbrev pub stream : List (List ℕ) → List ℕ
stream [] = []
stream (c ∷ cs) = c ++ stream cs

-- The buffer holds the end of what was written, and has counted the rest.
pub record Holds (written : List ℕ) (b : OutputBuffer) : Type 0 where
  pub tail_kept : b.bytes ≡ drop (length written - b.capacity) written
  pub counted : b.discarded_bytes + length b.bytes ≡ length written
