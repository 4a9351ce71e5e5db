-- ===== src/Jobs/Output/Stream.antt =====
-- `OutputBuffer` against the stream of all bytes that were written to it.
use mathlib.Core.List.{append-nil, append_assoc}
use dexdeck.Common.{
  ℕ, ◌+◌, ◌-◌, ◌≤◌, min, ◌≡◌, refl, sym, ap, ap₂, ◌∙◌, subst, List, [], ◌∷◌, ◌++◌, some, arith,
  saturating_add, u64_max, length, drop, length-append, length-drop, drop-append_within,
  drop-append_past, drop-drop, drop_all, dec_lt, Bool-cases, inl, inr, ◌==◌,
}
use dexdeck.Jobs.Output.{OutputBuffer, new, append, append_all, stream, Holds}

sat_fits : (a b : ℕ) → a + b ≤ u64_max → saturating_add a b ≡ a + b
sat_fits a b h = omega arith

drop_at : (m n : ℕ) (xs : List ℕ) → m ≡ n → drop m xs ≡ drop n xs
drop_at m n xs e = ap (λ (k : ℕ). drop k xs) e

-- What `append` keeps of the old bytes and of the new ones is the end of both together.
kept_parts :
    (cap : ℕ) (old input : List ℕ)
    → drop (min (length old + length input - cap) (length old)) old
        ++ drop (length input - cap) input
      ≡ drop (length old + length input - cap) (old ++ input)
kept_parts cap old input = elim (dec_lt (length old) (length old + length input - cap)) [
  | yes p ↦
      ap (λ t. t ++ drop (length input - cap) input)
        (drop_at _ (length old) old (omega arith) ∙ drop_all old)
      ∙ drop_at _ (length old + length input - cap - length old) input (omega arith)
      ∙ sym (drop-append_past (length old + length input - cap) old input (omega arith))
  | no p ↦
      ap₂ (λ s t. s ++ t) (drop_at _ (length old + length input - cap) old (omega arith))
        (drop_at _ 0 input (omega arith))
      ∙ sym (drop-append_within (length old + length input - cap) old input (omega arith))
]

length_kept : (cap : ℕ) (w : List ℕ) → length (drop (length w - cap) w) ≡ min (length w) cap
length_kept cap w = omega (arith, length-drop (length w - cap) w)

tail_step :
    (cap : ℕ) (w input : List ℕ)
    → drop (min (length w) cap + length input - cap) (drop (length w - cap) w ++ input)
      ≡ drop (length (w ++ input) - cap) (w ++ input)
tail_step cap w input =
    ap (drop (min (length w) cap + length input - cap))
      (sym (drop-append_within (length w - cap) w input (omega arith)))
    ∙ drop-drop (min (length w) cap + length input - cap) (length w - cap) (w ++ input)
    ∙ drop_at _ _ (w ++ input) (omega (arith, length-append w input))

-- One `append` keeps the end of the old bytes and the new ones, and counts what it lets go.
append-bytes :
    (b : OutputBuffer) (input : List ℕ)
    → length b.bytes + length input ≤ u64_max
    → (append b input).bytes ≡ drop (length b.bytes + length input - b.capacity) (b.bytes ++ input)
unfolding append
append-bytes b input fits =
    rw (sat_fits (length b.bytes) (length input) fits) (kept_parts b.capacity b.bytes input)

append-discarded_bytes :
    (b : OutputBuffer) (input : List ℕ)
    → b.discarded_bytes + (length b.bytes + length input) ≤ u64_max
    → (append b input).discarded_bytes
      ≡ b.discarded_bytes + (length b.bytes + length input - b.capacity)
unfolding append
append-discarded_bytes b input fits = omega arith

append-capacity : (b : OutputBuffer) (input : List ℕ) → (append b input).capacity ≡ b.capacity
unfolding append
append-capacity b input = refl

append_all-capacity :
    (b : OutputBuffer) (cs : List (List ℕ)) → (append_all b cs).capacity ≡ b.capacity
unfolding append_all
append_all-capacity b [] = refl
append_all-capacity b (c ∷ cs) = append_all-capacity (append b c) cs ∙ append-capacity b c

new_empty :
    (capacity : ℕ) {b : OutputBuffer} → new capacity ≡ some b → Holds [] b × (b.capacity ≡ capacity)
unfolding new
new_empty capacity {b} e = elim (Bool-cases (capacity == 0)) [
  | inl z ↦ ground arith
  | inr p ↦ ground arith
]

module _ {w : List ℕ} {b : OutputBuffer} (input : List ℕ) where
  length_bytes : Holds w b → length b.bytes ≡ min (length w) b.capacity
  length_bytes h = ap length h.tail_kept ∙ length_kept b.capacity w

  append_tail :
      Holds w b
      → length w + length input ≤ u64_max
      → (append b input).bytes ≡ drop (length (w ++ input) - b.capacity) (w ++ input)
  append_tail h fits =
      append-bytes b input (omega (arith, length_bytes h))
      ∙ drop_at _ (min (length w) b.capacity + length input - b.capacity) (b.bytes ++ input)
          (omega (arith, length_bytes h))
      ∙ ap (λ t. drop (min (length w) b.capacity + length input - b.capacity) (t ++ input))
          h.tail_kept
      ∙ tail_step b.capacity w input

  append-Holds : Holds w b → length w + length input ≤ u64_max → Holds (w ++ input) (append b input)
  append-Holds h fits = record {
    tail_kept = rw (append-capacity b input) (append_tail h fits);
    counted = omega (
      arith,
      length_bytes h,
      length-append w input,
      append-discarded_bytes b input (omega (arith, length_bytes h)),
      ap length (append_tail h fits),
      length-drop (length (w ++ input) - b.capacity) (w ++ input),
    );
  }

append_all-Holds :
    (cs : List (List ℕ)) (w : List ℕ) (b : OutputBuffer)
    → Holds w b
    → length w + length (stream cs) ≤ u64_max
    → Holds (w ++ stream cs) (append_all b cs)
unfolding append_all
append_all-Holds [] w b h fits = rw append-nil h
append_all-Holds (c ∷ cs) w b h fits =
    subst (λ t. Holds t (append_all (append b c) cs)) (append_assoc w c (stream cs))
      (append_all-Holds cs (w ++ c) (append b c)
        (append-Holds c h (omega (arith, length-append c (stream cs))))
        (omega (arith, length-append c (stream cs), length-append w c)))

-- A buffer of any positive capacity, fed any chunks of less than 2 ^ 64 bytes in all, holds the
-- last `capacity` bytes of all that was written, and `discarded_bytes` counts exactly the rest.
pub append_all-new_Holds :
    (capacity : ℕ) (cs : List (List ℕ)) {b : OutputBuffer}
    → new capacity ≡ some b
    → length (stream cs) ≤ u64_max
    → (append_all b cs).bytes ≡ drop (length (stream cs) - capacity) (stream cs)
      × ((append_all b cs).discarded_bytes + length (append_all b cs).bytes ≡ length (stream cs))
append_all-new_Holds capacity cs {b} e fits =
    let (empty, cap) = new_empty capacity e in
    let h = append_all-Holds cs [] b empty (omega arith) in
    (
      h.tail_kept
          ∙ drop_at _ _ (stream cs)
              (ap (λ (k : ℕ). length (stream cs) - k) (append_all-capacity b cs ∙ cap)),
      h.counted,
    )
