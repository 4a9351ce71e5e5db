-- ===== src/LogFilter/Index/Publication.antt =====
-- Which snapshot is seen in the end.
use dexdeck.Common.{
  ℕ, ◌≡◌, ◌≢◌, refl, sym, ap, subst, arith, ◌∙◌, inl, inr, String, Option, some, Bool, true, false,
  List, [], ◌∷◌, lookup, insert, remove, lookup-insert, lookup-remove, ℕ_discrete, Option-cases,
  any,
}
use dexdeck.LogFilter.{Result}
use dexdeck.LogFilter.Index.{
  LogFilterSnapshot, Rebuild, checking, writing, LogFilterIndex, Event, requests, checks, writes,
  check, write, on_check, on_write, step, run,
}

abbrev pub is_request : Event → Bool
is_request (requests _ _) = true
is_request _ = false

-- The newest snapshot is written, and every task that is left will find that it is outdated.
record Settled (g : ℕ) (s : LogFilterSnapshot) (i : LogFilterIndex) : Type 0 where
  shown : i.snapshot ≡ s
  requested : i.requested_generation ≡ g
  others :
      (k : ℕ) (r : Rebuild)
      → lookup ℕ_discrete k i.rebuilds ≡ some r
      → (k ≢ g) × ((t : LogFilterSnapshot) × (r ≡ checking t))

left_over :
    (k j : ℕ) (m : List (ℕ × Rebuild)) (r : Rebuild)
    → lookup ℕ_discrete j (remove ℕ_discrete k m) ≡ some r
    → (k ≢ j) × (lookup ℕ_discrete j m ≡ some r)
left_over k j m r h = elim (ℕ_discrete k j) [
  | yes e ↦ absurd (ground (arith, lookup-remove ℕ_discrete k j m))
  | no n ↦ (n, ground (arith, lookup-remove ℕ_discrete k j m))
]

remove-Settled :
    (g : ℕ) (s : LogFilterSnapshot) (i : LogFilterIndex) (k : ℕ)
    → Settled g s i
    → Settled g s (record i { rebuilds = remove ℕ_discrete k i.rebuilds })
remove-Settled g s i k v = record {
  shown = v.shown;
  requested = v.requested;
  others = λ j r h. v.others j r (left_over k j i.rebuilds r h).1;
}

module _ {Regex E : Type 0} (to_lowercase : String → String)
    (build : String → Bool → Result E Regex) (is_match : Regex → String → Bool)
    (to_string : E → String) where
  pub step-checks :
      (i : LogFilterIndex) (g : ℕ) {o : Option Rebuild}
      → lookup ℕ_discrete g i.rebuilds ≡ o
      → step to_lowercase build is_match to_string i (checks g) ≡ on_check g o i
  unfolding step
  step-checks i g e = ap (λ o. on_check g o i) e

  pub step-writes :
      (i : LogFilterIndex) (g : ℕ) {o : Option Rebuild}
      → lookup ℕ_discrete g i.rebuilds ≡ o
      → step to_lowercase build is_match to_string i (writes g) ≡ on_write g o i
  unfolding step
  step-writes i g e = ap (λ o. on_write g o i) e

  step-Settled :
      (g : ℕ) (s : LogFilterSnapshot) (i : LogFilterIndex) (e : Event)
      → is_request e ≡ false
      → Settled g s i
      → Settled g s (step to_lowercase build is_match to_string i e)
  step-Settled g s i (requests _ _) n v = cc
  step-Settled g s i (checks k) n v = elim (Option-cases (lookup ℕ_discrete k i.rebuilds)) [
    | inl e ↦ subst (Settled g s) (sym (step-checks i k e)) v
    | inr (r, e) ↦
        let (other, (t, c)) = v.others k r e in
        subst (Settled g s) (outdated other t ∙ sym (step-checks i k (e ∙ ap some c)))
          (remove-Settled g s i k v)
  ]
    where
      outdated :
          k ≢ g
          → (t : LogFilterSnapshot)
          → record i { rebuilds = remove ℕ_discrete k i.rebuilds } ≡ check k t i
      outdated other t = unfold check in ground (arith, v.requested)
  step-Settled g s i (writes k) n v = elim (Option-cases (lookup ℕ_discrete k i.rebuilds)) [
    | inl e ↦ subst (Settled g s) (sym (step-writes i k e)) v
    | inr (r, e) ↦
        let (other, (t, c)) = v.others k r e in
        subst (Settled g s) (sym (step-writes i k (e ∙ ap some c))) v
  ]

  run-Settled :
      (g : ℕ) (s : LogFilterSnapshot) (i : LogFilterIndex) (es : List Event)
      → any is_request es ≡ false
      → Settled g s i
      → Settled g s (run to_lowercase build is_match to_string i es)
  unfolding run
  run-Settled g s i [] n v = v
  run-Settled g s i (e ∷ es) n v =
      run-Settled g s (step to_lowercase build is_match to_string i e) es (ground arith)
        (step-Settled g s i e (ground arith) v)

  -- If no task has passed its check when the task of the newest rebuild does, and that task writes
  -- next, its snapshot is seen after any further steps of tasks, as long as no rebuild is requested.
  pub newest_published :
      (i : LogFilterIndex) (s : LogFilterSnapshot) (es : List Event)
      → lookup ℕ_discrete i.requested_generation i.rebuilds ≡ some (checking s)
      → ((k : ℕ) (t : LogFilterSnapshot) → lookup ℕ_discrete k i.rebuilds ≢ some (writing t))
      → any is_request es ≡ false
      → (run to_lowercase build is_match to_string i
          (checks i.requested_generation ∷ writes i.requested_generation ∷ es)).snapshot
        ≡ s
  unfolding run
  newest_published i s es here none_writes n =
      (run-Settled i.requested_generation s
        (go (go i (checks i.requested_generation)) (writes i.requested_generation)) es n
        settled).shown
    where
      go : LogFilterIndex → Event → LogFilterIndex
      go = step to_lowercase build is_match to_string

      g : ℕ
      g = i.requested_generation

      marked : LogFilterIndex
      marked = record i { rebuilds = insert ℕ_discrete g (writing s) i.rebuilds }

      there : lookup ℕ_discrete g (insert ℕ_discrete g (writing s) i.rebuilds) ≡ some (writing s)
      there = elim (ℕ_discrete g g) [
        | yes e ↦ ground (arith, lookup-insert ℕ_discrete g g (writing s) i.rebuilds)
        | no m ↦ absurd (m refl)
      ]

      kept :
          {k : ℕ}
          → g ≢ k
          → (t : LogFilterSnapshot) → lookup ℕ_discrete k marked.rebuilds ≡ some (writing t)
          → lookup ℕ_discrete k i.rebuilds ≡ some (writing t)
      kept {k} m t l = elim (ℕ_discrete g k) [
        | yes e ↦ absurd (m e)
        | no d ↦ ground (arith, lookup-insert ℕ_discrete g k (writing s) i.rebuilds)
      ]

      others :
          (k : ℕ) (r : Rebuild)
          → lookup ℕ_discrete k (remove ℕ_discrete g marked.rebuilds) ≡ some r
          → (k ≢ g) × ((t : LogFilterSnapshot) × (r ≡ checking t))
      others k (checking t) h =
          (λ e. (left_over g k marked.rebuilds (checking t) h).0 (sym e), (t, refl))
      others k (writing t) h =
          let (m, l) = left_over g k marked.rebuilds (writing t) h in
          absurd (none_writes k t (kept m t l))

      passed : go i (checks g) ≡ marked
      passed = step-checks i g here ∙ (unfold check in ground arith)

      settled : Settled g s (go (go i (checks g)) (writes g))
      settled =
          rw (passed, step-writes marked g there)
            (unfold write in record { shown = refl; requested = refl; others = others })
