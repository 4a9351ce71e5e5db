-- ===== src/LogBuffer/Eviction.antt =====
-- The loop that makes room: it ends, and it takes out no more than it must.
use dexdeck.Common.{
  ℕ, zero, suc, ◌+◌, ◌-◌, ◌≤◌, ◌<◌, ◌≡◌, refl, arith, subst, ◌⊎◌, inl, inr, some, Bool-cases, List,
  [], ◌∷◌, ◌∙◌, length, drop, ltb, saturating_add, u64_max,
}
use dexdeck.LogBuffer.{Entry, LogBufferStats, record_drop, evict}

abbrev pub sizes : List Entry → ℕ
sizes [] = 0
sizes ((e, n) ∷ es) = n + sizes es

-- The statistics describe the queue.
pub record Describes (es : List Entry) (st : LogBufferStats) : Type 0 where
  pub bytes_sum : st.buffered_bytes ≡ sizes es
  pub entries_count : st.buffered_entries ≡ length es
  pub entries_fit : st.dropped_entries ≤ u64_max
  pub bytes_fit : st.dropped_bytes ≤ u64_max

-- The queue after the loop is the old one without its `gone` oldest entries.
pub record Evicted (bytes : ℕ) (es : List Entry) (st : LogBufferStats) : Type 0 where
  pub gone : ℕ
  pub left : LogBufferStats
  pub ends : evict bytes es st ≡ some (drop gone es, left)
  pub gone_le : gone ≤ length es
  pub describes : Describes (drop gone es) left
  pub capacity_same : left.capacity_bytes ≡ st.capacity_bytes
  pub room : left.buffered_bytes + bytes ≤ st.capacity_bytes
  pub needed : (gone ≡ 0) ⊎ (st.capacity_bytes < sizes (drop (gone - 1) es) + bytes)
  pub dropped : left.dropped_entries ≡ saturating_add st.dropped_entries gone
  pub dropped_size :
      left.dropped_bytes ≡ saturating_add st.dropped_bytes (sizes es - sizes (drop gone es))

sizes-drop-le : (k : ℕ) (es : List Entry) → sizes (drop k es) ≤ sizes es
sizes-drop-le zero es = omega arith
sizes-drop-le (suc k) [] = omega arith
sizes-drop-le (suc k) (x ∷ es) = omega (arith, sizes-drop-le k es)

-- One turn of the loop.
abbrev taken : ℕ → LogBufferStats → LogBufferStats
taken n st = record_drop n (record st {
  buffered_bytes = st.buffered_bytes - n;
  buffered_entries = st.buffered_entries - 1;
})

stop :
    (bytes : ℕ) (es : List Entry) (st : LogBufferStats)
    → Describes es st
    → st.buffered_bytes + bytes ≤ st.capacity_bytes
    → evict bytes es st ≡ some (es, st)
    → Evicted bytes es st
stop bytes es st d fits e = record {
  gone = 0;
  left = st;
  ends = e;
  gone_le = omega arith;
  describes = d;
  capacity_same = refl;
  room = fits;
  needed = inl refl;
  dropped = omega (arith, d.entries_fit);
  dropped_size = omega (arith, d.bytes_fit);
}

-- The last entry that went had to go.
room_short :
    (k c bytes : ℕ) (x : Entry) (es : List Entry)
    → c < x.1 + sizes es + bytes
    → (k ≡ 0) ⊎ (c < sizes (drop (k - 1) es) + bytes)
    → c < sizes (drop (suc k - 1) (x ∷ es)) + bytes
room_short zero c bytes x es full h = full
room_short (suc k) c bytes x es full (inl z) = absurd (omega arith)
room_short (suc k) c bytes x es full (inr h) =
    subst (λ (i : ℕ). c < sizes (drop i (x ∷ es)) + bytes) (pred_two k)
      (subst (λ (i : ℕ). c < sizes (drop i es) + bytes) (pred_one k) h)
  where
    pred_one : (n : ℕ) → suc n - 1 ≡ n
    pred_one n = omega arith

    pred_two : (n : ℕ) → suc n ≡ suc (suc n) - 1
    pred_two n = omega arith

turn :
    (bytes : ℕ) (x : Entry) (es : List Entry) (st : LogBufferStats)
    → Describes (x ∷ es) st
    → st.capacity_bytes < st.buffered_bytes + bytes
    → evict bytes (x ∷ es) st ≡ evict bytes es (taken x.1 st)
    → Evicted bytes es (taken x.1 st)
    → Evicted bytes (x ∷ es) st
unfolding record_drop
turn bytes x es st d full e r = record {
  gone = suc r.gone;
  left = r.left;
  ends = e ∙ r.ends;
  gone_le = omega (arith, r.gone_le);
  describes = r.describes;
  capacity_same = r.capacity_same;
  room = r.room;
  needed = inr (room_short r.gone st.capacity_bytes bytes x es (omega arith) r.needed);
  dropped = omega (arith, r.dropped);
  dropped_size = omega (arith, r.dropped_size, sizes-drop-le r.gone es);
}

taken-Describes :
    (x : Entry) (es : List Entry) (st : LogBufferStats)
    → Describes (x ∷ es) st
    → Describes es (taken x.1 st)
unfolding record_drop
taken-Describes x es st d = omega arith

-- With statistics that describe the queue, and a record that fits the capacity, the loop ends: it
-- takes the oldest entries out, no more than it must to make room, and adds their number and their
-- bytes to what was dropped.
pub evict-Evicted :
    (bytes : ℕ) (es : List Entry) (st : LogBufferStats)
    → Describes es st
    → bytes ≤ st.capacity_bytes
    → Evicted bytes es st
evict-Evicted bytes [] st d fits =
    stop bytes [] st d (omega (arith, d.bytes_sum)) (unfold evict in ground (arith, d.bytes_sum))
evict-Evicted bytes (x ∷ es) st d fits =
    elim (Bool-cases (ltb st.capacity_bytes (st.buffered_bytes + bytes))) [
      | inl full ↦ turn bytes x es st d (ground arith) (unfold evict in ground arith) (
          evict-Evicted bytes es (taken x.1 st) (taken-Describes x es st d)
            (unfold record_drop in fits))
      | inr room ↦ stop bytes (x ∷ es) st d (ground arith) (unfold evict in ground arith)
    ]
