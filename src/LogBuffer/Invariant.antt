-- ===== src/LogBuffer/Invariant.antt =====
-- What holds of a buffer between two calls, and what a push leaves in it.
use dexdeck.Common.{
  ℕ, zero, suc, ◌+◌, ◌-◌, ◌≤◌, ◌<◌, ◌≡◌, refl, arith, subst, ◌⊎◌, inl, inr, Option, none, some,
  true, Bool-cases, List, [], ◌∷◌, ◌++◌, length, length-append, drop, ltb, leb, ◌&&◌,
  saturating_add, u64_max, All, All-append, All-drop,
}
use dexdeck.Protocol.Log.{LogRecord}
use dexdeck.LogBuffer.{
  Entry, LogBufferStats, ByteBoundedLogBuffer, record_drop, evict, record_size, push, run_calls,
  LogCall, pushes, clears, clear, new, min_log_buffer_bytes, max_log_buffer_bytes, push_back,
  empty_buffer,
}
use dexdeck.LogBuffer.Eviction.{sizes, Describes, Evicted, evict-Evicted}

-- Sequence numbers rise along the queue and stay below the next one.
abbrev pub Rising : ℕ → List Entry → Type 0
Rising low [] = Unit {0}
Rising low ((e, n) ∷ es) = (low ≤ e.sequence) × Rising (suc e.sequence) es

abbrev pub Below : ℕ → List Entry → Type 0
Below next = All (λ x. x.0.sequence < next)

abbrev pub Sized : ℕ → List Entry → Type 0
Sized entry_size = All (λ x. x.1 ≡ record_size entry_size x.0.log_record)

pub record Inv (entry_size : ℕ) (b : ByteBoundedLogBuffer) : Type 0 where
  pub describes : Describes b.entries b.stats
  pub bounded : b.stats.buffered_bytes ≤ b.stats.capacity_bytes
  pub rising : Rising 0 b.entries
  pub below : Below b.next_sequence b.entries
  pub sized : Sized entry_size b.entries
  pub capacity_low : min_log_buffer_bytes ≤ b.stats.capacity_bytes
  pub capacity_high : b.stats.capacity_bytes ≤ max_log_buffer_bytes

pub new-Inv :
    (entry_size capacity : ℕ) {b : ByteBoundedLogBuffer} → new capacity ≡ some b → Inv entry_size b
unfolding new
new-Inv entry_size capacity {b} e =
    elim (Bool-cases (leb min_log_buffer_bytes capacity && leb capacity max_log_buffer_bytes)) [
      | inr z ↦ absurd (ground arith)
      | inl z ↦ subst (Inv entry_size) (made z) (record {
        describes = omega arith;
        bounded = omega arith;
        rising = tt;
        below = tt;
        sized = tt;
        capacity_low = ground arith;
        capacity_high = ground arith;
      })
    ]
  where
    made :
        (leb min_log_buffer_bytes capacity && leb capacity max_log_buffer_bytes) ≡ true
        → empty_buffer capacity ≡ b
    made z = ground arith

new_first : (capacity : ℕ) {b : ByteBoundedLogBuffer} → new capacity ≡ some b → b.next_sequence ≡ 1
unfolding new
new_first capacity {b} e = ground arith

Rising-mono : (l m : ℕ) (es : List Entry) → l ≤ m → Rising m es → Rising l es
Rising-mono l m [] h r = tt
Rising-mono l m (x ∷ es) h r = (omega arith, r.1)

Rising-drop : (k l : ℕ) (es : List Entry) → Rising l es → Rising l (drop k es)
Rising-drop zero l es r = r
Rising-drop (suc k) l [] r = tt
Rising-drop (suc k) l (x ∷ es) r =
    Rising-drop k l es (Rising-mono l (suc x.0.sequence) es (omega arith) r.1)

Rising-append :
    (l : ℕ) (es : List Entry) (x : Entry)
    → Rising l es
    → Below x.0.sequence es
    → l ≤ x.0.sequence
    → Rising l (es ++ x ∷ [])
Rising-append l [] x r b h = (h, tt)
Rising-append l (y ∷ es) x r b h = (r.0, Rising-append (suc y.0.sequence) es x r.1 b.1 b.0)

Below-mono : (l m : ℕ) (es : List Entry) → l ≤ m → Below l es → Below m es
Below-mono l m [] h b = tt
Below-mono l m (x ∷ es) h b = (omega arith, Below-mono l m es h b.1)

sizes-append : (es : List Entry) (x : Entry) → sizes (es ++ x ∷ []) ≡ sizes es + x.1
sizes-append [] x = omega arith
sizes-append (y ∷ es) x = omega (arith, sizes-append es x)

module _ (entry_size : ℕ) (r : LogRecord) {b : ByteBoundedLogBuffer} (v : Inv entry_size b) where
  -- A record larger than the whole capacity is counted as dropped, and nothing else changes.
  pub push_oversized :
      b.stats.capacity_bytes < record_size entry_size r
      → push entry_size r b
        ≡ some (record b { stats = record_drop (record_size entry_size r) b.stats }, none)
  unfolding push
  push_oversized h = ground arith

  push_fits :
      {left : List Entry × LogBufferStats}
      → record_size entry_size r ≤ b.stats.capacity_bytes
      → evict (record_size entry_size r) b.entries b.stats ≡ some left
      → push entry_size r b ≡ some (push_back r (record_size entry_size r) b left)
  unfolding push
  push_fits h e = ground arith

  oversized-Inv :
      Inv entry_size (record b { stats = record_drop (record_size entry_size r) b.stats })
  unfolding record_drop
  oversized-Inv = record {
    describes = omega (arith, v.describes);
    bounded = v.bounded;
    rising = v.rising;
    below = v.below;
    sized = v.sized;
    capacity_low = v.capacity_low;
    capacity_high = v.capacity_high;
  }

  pushed-Inv :
      (g : Evicted (record_size entry_size r) b.entries b.stats)
      → b.next_sequence < u64_max
      → Inv entry_size (push_back r (record_size entry_size r) b (drop g.gone b.entries, g.left)).0
  pushed-Inv g fresh =
      let new : Entry =
        (record { sequence = b.next_sequence; log_record = r }, record_size entry_size r) in
      let old = drop g.gone b.entries in
      let kept = All-drop (λ x. x.0.sequence < b.next_sequence) g.gone b.entries v.below in
      record {
        describes = omega (arith, g.describes, sizes-append old new, length-append old (new ∷ []));
        bounded = omega (arith, g.room, g.capacity_same);
        rising =
            Rising-append 0 old new (Rising-drop g.gone 0 b.entries v.rising) kept (omega arith);
        below =
            All-append (λ x. x.0.sequence < saturating_add b.next_sequence 1) old (new ∷ [])
              (Below-mono b.next_sequence (saturating_add b.next_sequence 1) old (omega arith) kept)
              (omega arith, tt);
        sized =
            All-append (λ x. x.1 ≡ record_size entry_size x.0.log_record) old (new ∷ [])
              (All-drop (λ x. x.1 ≡ record_size entry_size x.0.log_record) g.gone b.entries v.sized)
              (refl, tt);
        capacity_low = omega (arith, g.capacity_same, v.capacity_low);
        capacity_high = omega (arith, g.capacity_same, v.capacity_high);
      }

  -- In a buffer with the invariant whose sequence numbers are not used up, a record that fits the
  -- capacity: `push` returns the next sequence number and appends the record with it, after the
  -- oldest entries have gone, as few as make room, each counted as dropped; the invariant holds again.
  pub push_appends :
      record_size entry_size r ≤ b.stats.capacity_bytes
      → b.next_sequence < u64_max
      → (b' : ByteBoundedLogBuffer) × (gone : ℕ) × (push entry_size r b
          ≡ some (b', some b.next_sequence))
        × (b'.entries
            ≡ drop gone b.entries
              ++ (record { sequence = b.next_sequence; log_record = r }, record_size entry_size r)
                ∷ [])
        × ((gone ≡ 0)
            ⊎ (b.stats.capacity_bytes
                < sizes (drop (gone - 1) b.entries) + record_size entry_size r))
        × (b'.stats.dropped_entries ≡ saturating_add b.stats.dropped_entries gone)
        × Inv entry_size b'
  push_appends fits fresh =
      let g = evict-Evicted (record_size entry_size r) b.entries b.stats v.describes fits in
      (
        (push_back r (record_size entry_size r) b (drop g.gone b.entries, g.left)).0,
        g.gone,
        push_fits fits g.ends,
        refl,
        g.needed,
        g.dropped,
        pushed-Inv g fresh,
      )

push-Inv :
    (entry_size : ℕ) (r : LogRecord) {b : ByteBoundedLogBuffer}
    → Inv entry_size b
    → b.next_sequence < u64_max
    → (b' : ByteBoundedLogBuffer) × (q : Option ℕ) × (push entry_size r b ≡ some (b', q))
      × (b'.next_sequence ≤ b.next_sequence + 1)
      × Inv entry_size b'
push-Inv entry_size r {b} v fresh =
    elim (Bool-cases (ltb b.stats.capacity_bytes (record_size entry_size r))) [
      | inl large ↦ (
        _,
        none,
        push_oversized entry_size r v (ground arith),
        omega arith,
        oversized-Inv entry_size r v,
      )
      | inr fits ↦
          let g =
            evict-Evicted (record_size entry_size r) b.entries b.stats v.describes (ground arith) in
          (
            _,
            some b.next_sequence,
            push_fits entry_size r v (ground arith) g.ends,
            omega arith,
            pushed-Inv entry_size r v g fresh,
          )
    ]

clear-Inv :
    (entry_size : ℕ) {b : ByteBoundedLogBuffer} → Inv entry_size b → Inv entry_size (clear b)
unfolding clear
clear-Inv entry_size v = record {
  describes = omega (arith, v.describes);
  bounded = omega arith;
  rising = tt;
  below = tt;
  sized = tt;
  capacity_low = v.capacity_low;
  capacity_high = v.capacity_high;
}

clear-next_sequence : (b : ByteBoundedLogBuffer) → (clear b).next_sequence ≡ b.next_sequence
unfolding clear
clear-next_sequence b = refl

run_calls-from :
    (entry_size : ℕ) (cs : List LogCall) (b : ByteBoundedLogBuffer)
    → Inv entry_size b
    → b.next_sequence + length cs ≤ u64_max
    → (b' : ByteBoundedLogBuffer) × (run_calls entry_size cs b ≡ some b') × Inv entry_size b'
unfolding run_calls
run_calls-from entry_size [] b v fresh = (b, refl, v)
run_calls-from entry_size (pushes r ∷ cs) b v fresh =
    let (b', q, e, step, v') = push-Inv entry_size r v (omega arith) in
    let (b'', e', v'') = run_calls-from entry_size cs b' v' (omega arith) in
    (b'', rw (e, run_calls) e', v'')
run_calls-from entry_size (clears ∷ cs) b v fresh =
    run_calls-from entry_size cs (clear b) (clear-Inv entry_size v)
      (omega (arith, clear-next_sequence b))

-- Any fewer than 2 ^ 64 - 1 calls of `push` and `clear` on a new buffer: every call returns, the
-- buffer is within its capacity, its statistics are the count and the sum of the sizes of its
-- entries, which are the sizes of their records, and the sequence numbers rise strictly.
pub run_calls-Inv :
    (entry_size capacity : ℕ) (cs : List LogCall) {b : ByteBoundedLogBuffer}
    → new capacity ≡ some b
    → length cs < u64_max
    → (b' : ByteBoundedLogBuffer) × (run_calls entry_size cs b ≡ some b') × Inv entry_size b'
run_calls-Inv entry_size capacity cs {b} e fits =
    run_calls-from entry_size cs b (new-Inv entry_size capacity e)
      (omega (arith, new_first capacity e))
