-- ===== src/DebugDiagnostics/Bounds.antt =====
-- crates/dexdeck-core/src/debug_diagnostics.rs: the entries stay within both limits, and their bytes
-- are counted right.
use dexdeck.Common.{
  ℕ, ◌+◌, ◌-◌, ◌≤◌, ◌<◌, ◌≡◌, refl, arith, subst, min, inl, inr, Bool, ◌||◌, Bool-cases, List, [],
  ◌∷◌, ◌++◌, length, ltb, leb, ◌==◌, saturating_add, u64_max, length-append,
}
use dexdeck.Common.Results.{Result, ok, ok_injective}
use dexdeck.DebugDiagnostics.{
  DebugEntry, DebugDiagnosticError, DebugDiagnostics, no_entries, Message, estimated_bytes,
  byte_length, width, truncate_utf8, discard, push_entry, cut_entry, entry_of, push, push_messages,
  new,
}

abbrev pub sizes : List DebugEntry → ℕ
sizes [] = 0
sizes (e ∷ entries) = estimated_bytes e + sizes entries

-- What `discard` leaves has room for one more entry, and its bytes are counted.
record Room (maximum_bytes maximum_entries bytes : ℕ) (left : List DebugEntry × (ℕ × ℕ))
    : Type 0 where
  counted : left.1.0 ≡ sizes left.0
  fits : left.1.0 + bytes ≤ maximum_bytes
  one_less : length left.0 < maximum_entries

discard-Room :
    (maximum_bytes maximum_entries bytes : ℕ) (entries : List DebugEntry) (retained discarded : ℕ)
    → 0 < maximum_entries
    → maximum_bytes < u64_max
    → bytes ≤ maximum_bytes
    → retained ≡ sizes entries
    → Room maximum_bytes maximum_entries bytes
        (discard maximum_bytes maximum_entries bytes entries retained discarded)
unfolding discard
discard-Room b m bytes [] retained discarded some_entries machine small counted = record {
  counted = counted;
  fits = omega arith;
  one_less = omega arith;
}
discard-Room b m bytes (e ∷ entries) retained discarded some_entries machine small counted =
    elim (Bool-cases (leb m (length (e ∷ entries)) || ltb b (saturating_add retained bytes))) [
      | inl full ↦ rw full (
          discard-Room b m bytes entries (retained - estimated_bytes e) (saturating_add discarded 1)
            some_entries machine small (omega arith))
      | inr room ↦
          rw room (record { counted = counted; fits = ground arith; one_less = ground arith })
    ]

sizes-append :
    (entries : List DebugEntry) (e : DebugEntry)
    → sizes (entries ++ e ∷ []) ≡ sizes entries + estimated_bytes e
sizes-append [] e = omega arith
sizes-append (x ∷ entries) e = omega (arith, sizes-append entries e)

byte_length-truncate_utf8 :
    (text : List ℕ) (maximum_bytes : ℕ)
    → byte_length (truncate_utf8 text maximum_bytes) ≤ maximum_bytes
unfolding truncate_utf8
byte_length-truncate_utf8 [] maximum_bytes = omega arith
byte_length-truncate_utf8 (c ∷ text) maximum_bytes =
    elim (Bool-cases (leb (width c) maximum_bytes)) [
      | inl t ↦ rw t (
          let later = byte_length-truncate_utf8 text (maximum_bytes - width c) in
          let here : width c ≤ maximum_bytes = ground arith in omega arith)
      | inr f ↦ rw f (omega arith)
    ]

-- The buffer is within the limits it was made for, and counts its bytes.
pub record Bounded (maximum_bytes maximum_entries : ℕ) (d : DebugDiagnostics) : Type 0 where
  pub bytes_limit : d.maximum_bytes ≡ maximum_bytes
  pub entries_limit : d.maximum_entries ≡ maximum_entries
  pub entries_fit : length d.entries ≤ maximum_entries
  pub bytes_fit : d.retained_bytes ≤ maximum_bytes
  pub counted : d.retained_bytes ≡ sizes d.entries

estimated_bytes-cut_entry :
    (maximum_bytes : ℕ) (m : Message) (component message : List ℕ)
    → 48 ≤ maximum_bytes
    → estimated_bytes (cut_entry maximum_bytes m component message) ≤ maximum_bytes
unfolding estimated_bytes cut_entry
estimated_bytes-cut_entry maximum_bytes m component message room =
    let front = truncate_utf8 component (maximum_bytes - 48) in
    omega (
      arith,
      byte_length-truncate_utf8 component (maximum_bytes - 48),
      byte_length-truncate_utf8 message (maximum_bytes - saturating_add (byte_length front) 48),
    )

push_entry-Bounded :
    (maximum_bytes maximum_entries : ℕ) (d : DebugDiagnostics) (e : DebugEntry)
    → 0 < maximum_entries
    → maximum_bytes < u64_max
    → estimated_bytes e ≤ maximum_bytes
    → Bounded maximum_bytes maximum_entries d
    → Bounded maximum_bytes maximum_entries (push_entry d e)
push_entry-Bounded maximum_bytes maximum_entries d e some_entries machine small b =
    let bytes = min (estimated_bytes e) d.maximum_bytes in
    let (entries, (retained, discarded)) =
      discard d.maximum_bytes d.maximum_entries bytes d.entries d.retained_bytes
        d.discarded_entries in
    let room =
      discard-Room d.maximum_bytes d.maximum_entries bytes d.entries d.retained_bytes
        d.discarded_entries (omega (arith, b.entries_limit)) (omega (arith, b.bytes_limit))
        (omega arith) b.counted in
    record {
      bytes_limit = b.bytes_limit;
      entries_limit = b.entries_limit;
      entries_fit = omega (arith, room.one_less, b.entries_limit, length-append entries (e ∷ []));
      bytes_fit = omega (arith, room.fits, b.bytes_limit);
      counted = omega (arith, room.fits, b.bytes_limit, room.counted, sizes-append entries e);
    }

new-Bounded :
    (maximum_bytes maximum_entries : ℕ) (d : DebugDiagnostics)
    → new maximum_bytes maximum_entries ≡ ok d
    → (0 < maximum_entries) × Bounded maximum_bytes maximum_entries d
unfolding new
new-Bounded maximum_bytes maximum_entries d h = elim (Bool-cases (maximum_bytes == 0)) [
  | inl no_bytes ↦ absurd (ground (arith, h, no_bytes))
  | inr some_bytes ↦ elim (Bool-cases (maximum_entries == 0)) [
    | inl none_left ↦ absurd (ground (arith, h, some_bytes, none_left))
    | inr entries_left ↦
        let made : ◌≡◌ {A = Result DebugDiagnosticError DebugDiagnostics}
            (ok (no_entries maximum_bytes maximum_entries)) (ok d) =
          ground (arith, h, some_bytes, entries_left) in
        subst (λ x. (0 < maximum_entries) × Bounded maximum_bytes maximum_entries x)
          (ok_injective made)
          (
            ground arith,
            record {
              bytes_limit = refl;
              entries_limit = refl;
              entries_fit = omega arith;
              bytes_fit = omega arith;
              counted = refl;
            },
          )
  ]
]

module _ (is_whitespace : ℕ → Bool) where
  push_messages-keeps :
      (maximum_bytes maximum_entries : ℕ) (d : DebugDiagnostics) (messages : List Message)
      → 0 < maximum_entries
      → 48 ≤ maximum_bytes
      → maximum_bytes < u64_max
      → Bounded maximum_bytes maximum_entries d
      → Bounded maximum_bytes maximum_entries (push_messages is_whitespace d messages)
  unfolding push_messages push entry_of
  push_messages-keeps maximum_bytes maximum_entries d [] some_entries room machine b = b
  push_messages-keeps maximum_bytes maximum_entries d (m ∷ messages) some_entries room machine b =
      push_messages-keeps maximum_bytes maximum_entries (push is_whitespace d m) messages
        some_entries room machine
        (push_entry-Bounded maximum_bytes maximum_entries d
          (entry_of is_whitespace d.maximum_bytes m) some_entries machine
          (subst (λ (n : ℕ). estimated_bytes (entry_of is_whitespace d.maximum_bytes m) ≤ n)
            b.bytes_limit
            (estimated_bytes-cut_entry d.maximum_bytes m _ _ (omega (arith, b.bytes_limit))))
          b)

  -- A buffer that `new` has made for at least the 48 bytes that each entry takes, and for fewer than
  -- a `usize` can count, has after any messages no more entries and no more bytes than it was made
  -- for, and `retained_bytes` is the sum of the estimated bytes of its entries.
  pub push_messages-Bounded :
      (maximum_bytes maximum_entries : ℕ) (d : DebugDiagnostics) (messages : List Message)
      → new maximum_bytes maximum_entries ≡ ok d
      → 48 ≤ maximum_bytes
      → maximum_bytes < u64_max
      → Bounded maximum_bytes maximum_entries (push_messages is_whitespace d messages)
  push_messages-Bounded maximum_bytes maximum_entries d messages h room machine =
      let (some_entries, b) = new-Bounded maximum_bytes maximum_entries d h in
      push_messages-keeps maximum_bytes maximum_entries d messages some_entries room machine b
