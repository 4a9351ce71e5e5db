-- ===== src/LogView/Selection.antt =====
-- Which error is selected next.
use mathlib.Core.List.{Memᴰ, reverse-cons}
use dexdeck.Common.{
  ℕ, suc, ◌≤◌, ◌<◌, ◌≡◌, refl, sym, ap, subst, ◌∙◌, arith, ◌⊎◌, inl, inr, Option, none, some, Bool,
  true, false, Bool-cases, Option-cases, List, [], ◌∷◌, ◌++◌, ltb, find, retain, map, reverse,
  u64_max,
}
use dexdeck.LogBuffer.{SequencedLogRecord, Entry, ByteBoundedLogBuffer, snapshot}
use dexdeck.LogBuffer.Invariant.{Inv, Rising}
use dexdeck.LogView.{LogViewState, is_error, or_else, sequence_of, select_next_error}

-- Records in the order of their sequence numbers.
abbrev pub Ascending : ℕ → List SequencedLogRecord → Type 0
Ascending low [] = Unit {0}
Ascending low (e ∷ es) = (low ≤ e.sequence) × Ascending (suc e.sequence) es

abbrev pub IsErrorIn : List SequencedLogRecord → ℕ → Type 0
IsErrorIn records s =
    (e : SequencedLogRecord) × Memᴰ e records × (e.sequence ≡ s) × (is_error e.log_record ≡ true)

-- The first error after a place, or that there is none.
abbrev pub Next : List SequencedLogRecord → ℕ → Option ℕ → Type 0
Next records from none = (s : ℕ) → IsErrorIn records s → s ≤ from
Next records from (some s) =
    IsErrorIn records s × (from < s) × ((t : ℕ) → IsErrorIn records t → from < t → s ≤ t)

low-Mem :
    (low : ℕ) (es : List SequencedLogRecord) (e : SequencedLogRecord)
    → Ascending low es
    → Memᴰ e es
    → low ≤ e.sequence
low-Mem low [] e a m = elim m [ ]
low-Mem low (x ∷ es) e a (Memᴰ.head q) = subst (λ z. low ≤ z.sequence) (sym q) a.0
low-Mem low (x ∷ es) e a (Memᴰ.tail m) = omega (arith, low-Mem (suc x.sequence) es e a.1 m)

later :
    (x : SequencedLogRecord) (es : List SequencedLogRecord) (s : ℕ)
    → IsErrorIn es s
    → IsErrorIn (x ∷ es) s
later x es s (e, m, q, r) = (e, Memᴰ.tail m, q, r)

-- An error of the list is its head or one of the tail.
earlier :
    (x : SequencedLogRecord) (es : List SequencedLogRecord) (s : ℕ)
    → IsErrorIn (x ∷ es) s
    → ((x.sequence ≡ s) × (is_error x.log_record ≡ true)) ⊎ IsErrorIn es s
earlier x es s (e, Memᴰ.head h, q, r) =
    inl (subst (λ z. z.sequence ≡ s) h q, subst (λ z. is_error z.log_record ≡ true) h r)
earlier x es s (e, Memᴰ.tail m, q, r) = inr (e, m, q, r)

skip :
    (from : ℕ) (x : SequencedLogRecord) (es : List SequencedLogRecord) (o : Option ℕ)
    → (is_error x.log_record ≡ true → x.sequence ≤ from)
    → Next es from o
    → Next (x ∷ es) from o
skip from x es none low n = λ s h. elim (earlier x es s h) [
  | inl (e, t) ↦ subst (λ (z : ℕ). z ≤ from) e (low t)
  | inr k ↦ n s k
]
skip from x es (some s) low n = (
  later x es s n.0,
  n.1,
  λ t h after. elim (earlier x es t h) [
    | inl (e, b) ↦ absurd (omega (arith, low b))
    | inr k ↦ n.2 t k after
  ],
)

find-Next :
    (from low : ℕ) (es : List SequencedLogRecord)
    → Ascending low es
    → Next es from
        (sequence_of (find (λ e. ltb from e.sequence) (retain (λ e. is_error e.log_record) es)))
find-Next from low [] a = λ s h. nobody s h
  where
    nobody : (s : ℕ) → IsErrorIn [] s → s ≤ from
    nobody s (e, m, q, r) = elim m [ ]
find-Next from low (x ∷ es) a = elim (Bool-cases (is_error x.log_record)) [
  | inr f ↦
      rw f (skip from x es _ (λ t. absurd (ground arith)) (find-Next from (suc x.sequence) es a.1))
  | inl t ↦ elim (Bool-cases (ltb from x.sequence)) [
    | inr g ↦
        rw (t, g) (skip from x es _ (λ _. ground arith) (find-Next from (suc x.sequence) es a.1))
    | inl g ↦ rw (t, g) ((x, Memᴰ.head refl, refl, t), ground arith, least)
  ]
]
  where
    least : (t : ℕ) → IsErrorIn (x ∷ es) t → from < t → x.sequence ≤ t
    least t (e, m, q, r) after = omega (arith, low-Mem x.sequence (x ∷ es) e (omega arith, a.1) m)

-- The last error before a place, or that there is none.
abbrev pub Previous : List SequencedLogRecord → ℕ → Option ℕ → Type 0
Previous records from none = (s : ℕ) → IsErrorIn records s → from ≤ s
Previous records from (some s) =
    IsErrorIn records s × (s < from) × ((t : ℕ) → IsErrorIn records t → t < from → t ≤ s)

retain-append :
    (q : SequencedLogRecord → Bool) (xs ys : List SequencedLogRecord)
    → retain q (xs ++ ys) ≡ retain q xs ++ retain q ys
retain-append q [] ys = refl
retain-append q (x ∷ xs) ys = elim (Bool-cases (q x)) [
  | inl t ↦ rw t (ap (λ l. x ∷ l) (retain-append q xs ys))
  | inr t ↦ rw t (retain-append q xs ys)
]

find-append_some :
    (p : SequencedLogRecord → Bool) (xs ys : List SequencedLogRecord) {e : SequencedLogRecord}
    → find p xs ≡ some e
    → find p (xs ++ ys) ≡ some e
find-append_some p [] ys h = cc
find-append_some p (x ∷ xs) ys {e} h = elim (Bool-cases (p x)) [
  | inl t ↦ ground arith
  | inr t ↦ rw t (find-append_some p xs ys (ground arith))
]

find-append_none :
    (p : SequencedLogRecord → Bool) (xs ys : List SequencedLogRecord)
    → find p xs ≡ none
    → find p (xs ++ ys) ≡ find p ys
find-append_none p [] ys h = refl
find-append_none p (x ∷ xs) ys h = elim (Bool-cases (p x)) [
  | inl t ↦ absurd (ground arith)
  | inr t ↦ rw t (find-append_none p xs ys (ground arith))
]

module _ (from : ℕ) where
  abbrev before : SequencedLogRecord → Bool
  before e = ltb e.sequence from

  abbrev failing : SequencedLogRecord → Bool
  failing e = is_error e.log_record

  -- The head comes last in the other order.
  find-backwards :
      (x : SequencedLogRecord) (es : List SequencedLogRecord)
      → find before (retain failing (reverse (x ∷ es)))
        ≡ find before (retain failing (reverse es) ++ retain failing (x ∷ []))
  find-backwards x es =
      ap (λ l. find before (retain failing l)) (reverse-cons x es)
      ∙ ap (find before) (retain-append failing (reverse es) (x ∷ []))

  head-Previous :
      (x : SequencedLogRecord) (es : List SequencedLogRecord)
      → Previous es from none
      → Previous (x ∷ es) from (sequence_of (find before (retain failing (x ∷ []))))
  head-Previous x es n = elim (Bool-cases (is_error x.log_record)) [
    | inr f ↦
        rw f (λ s h. elim (earlier x es s h) [ inl (e, t) ↦ absurd (ground arith) | inr k ↦ n s k ])
    | inl t ↦ elim (Bool-cases (ltb x.sequence from)) [
      | inr g ↦
          rw (t, g) (λ s h. elim (earlier x es s h) [ inl (e, _) ↦ ground arith | inr k ↦ n s k ])
      | inl g ↦
          rw (t, g)
            (
              (x, Memᴰ.head refl, refl, t),
              ground arith,
              λ u h lower. elim (earlier x es u h) [
                | inl (e, _) ↦ omega arith
                | inr k ↦ absurd (omega (arith, n u k))
              ],
            )
    ]
  ]

  find-Previous :
      (low : ℕ) (es : List SequencedLogRecord)
      → Ascending low es
      → Previous es from (sequence_of (find before (retain failing (reverse es))))
  find-Previous low [] a = λ s h. nobody s h
    where
      nobody : (s : ℕ) → IsErrorIn [] s → from ≤ s
      nobody s (e, m, q, r) = elim m [ ]
  find-Previous low (x ∷ es) a =
      let ih = find-Previous (suc x.sequence) es a.1 in
      subst (λ o. Previous (x ∷ es) from (sequence_of o)) (sym (find-backwards x es))
        (elim (Option-cases (find before (retain failing (reverse es)))) [
          | inl e ↦
              subst (λ o. Previous (x ∷ es) from (sequence_of o))
                (sym (
                  find-append_none before (retain failing (reverse es)) (retain failing (x ∷ []))
                    e))
                (head-Previous x es (subst (λ o. Previous es from (sequence_of o)) e ih))
          | inr (y, e) ↦
              subst (λ o. Previous (x ∷ es) from (sequence_of o))
                (sym (
                  find-append_some before (retain failing (reverse es)) (retain failing (x ∷ []))
                    e))
                (kept y (subst (λ o. Previous es from (sequence_of o)) e ih))
        ])
    where
      kept :
          (y : SequencedLogRecord)
          → Previous es from (some y.sequence)
          → Previous (x ∷ es) from (some y.sequence)
      kept y n = (
        later x es y.sequence n.0,
        n.1,
        λ t h lower. elim (earlier x es t h) [
          | inl (e, _) ↦
              let (z, m, q, r) = n.0 in omega (arith, low-Mem (suc x.sequence) es z a.1 m)
          | inr k ↦ n.2 t k lower
        ],
      )

-- The entries of the buffer, without their sizes.
snapshot-Ascending : (low : ℕ) (es : List Entry) → Rising low es → Ascending low (map (λ e. e.0) es)
snapshot-Ascending low [] r = tt
snapshot-Ascending low (x ∷ es) r = (r.0, snapshot-Ascending (suc x.0.sequence) es r.1)

-- In a log buffer with the invariant, the error that is selected next is the first one after the
-- selected place, or the last one before it; if none is selected there is no such error. Without a
-- selection the search starts at the oldest record, or at the newest. The view stops following.
pub select_next_error-Next :
    (entry_size : ℕ) (b : ByteBoundedLogBuffer) (v : LogViewState)
    → Inv entry_size b
    → Next
        (snapshot b)
        (or_else v.selected_sequence 0)
        (select_next_error (snapshot b) false v).selected_sequence
      × Previous
          (snapshot b)
          (or_else v.selected_sequence u64_max)
          (select_next_error (snapshot b) true v).selected_sequence
      × ((backwards : Bool) → (select_next_error (snapshot b) backwards v).follow ≡ false)
unfolding select_next_error snapshot
select_next_error-Next entry_size b v inv =
    let rising = snapshot-Ascending 0 b.entries inv.rising in
    (
      find-Next (or_else v.selected_sequence 0) 0 (map (λ e. e.0) b.entries) rising,
      find-Previous (or_else v.selected_sequence u64_max) 0 (map (λ e. e.0) b.entries) rising,
      λ backwards. refl,
    )
