-- ===== src/LogFilter/Index/Race.antt =====
-- Two rebuilds whose tasks overlap.
use dexdeck.Common.{
  ℕ, ◌+◌, ◌%◌, ◌^◌, ◌<◌, ◌≡◌, ◌≢◌, refl, ap, arith, ◌∙◌, some, String, Bool, List, [], ◌∷◌, lookup,
  insert, remove, ℕ_discrete,
}
use dexdeck.Protocol.Log.{LogFilterSpec}
use dexdeck.LogBuffer.{SequencedLogRecord}
use dexdeck.LogFilter.{Result}
use dexdeck.LogFilter.Index.{
  LogFilterSnapshot, Rebuild, checking, writing, LogFilterIndex, Event, requests, checks, writes,
  check, write, rebuilt, rebuild, step, run,
}
use dexdeck.LogFilter.Index.Publication.{step-checks, step-writes}

-- Tables of one task and of two.
abbrev one : ℕ → Rebuild → List (ℕ × Rebuild)
one g r = (g, r) ∷ []

abbrev two : ℕ → ℕ → Rebuild → Rebuild → List (ℕ × Rebuild)
two g h r q = (g, r) ∷ (h, q) ∷ []

module _ (g h : ℕ) (apart : g ≢ h) (r q : Rebuild) where
  lookup-one : lookup ℕ_discrete g (one g r) ≡ some r
  unfolding lookup
  lookup-one = elim (ℕ_discrete g g) [ yes e ↦ ground arith | no n ↦ absurd (n refl) ]

  insert-one : (w : Rebuild) → insert ℕ_discrete g w (one g r) ≡ one g w
  unfolding insert
  insert-one w = elim (ℕ_discrete g g) [ yes e ↦ ground arith | no n ↦ absurd (n refl) ]

  remove-one : remove ℕ_discrete g (one g r) ≡ []
  unfolding remove
  remove-one = elim (ℕ_discrete g g) [ yes e ↦ ground arith | no n ↦ absurd (n refl) ]

  insert-other : insert ℕ_discrete h q (one g r) ≡ two g h r q
  unfolding insert
  insert-other = elim (ℕ_discrete g h) [ yes e ↦ absurd (apart e) | no n ↦ ground arith ]

  lookup-two : lookup ℕ_discrete h (two g h r q) ≡ some q
  unfolding lookup
  lookup-two = elim (ℕ_discrete g h) [
    | yes e ↦ absurd (apart e)
    | no n ↦ elim (ℕ_discrete h h) [ yes e ↦ ground arith | no m ↦ absurd (m refl) ]
  ]

  insert-two : (w : Rebuild) → insert ℕ_discrete h w (two g h r q) ≡ two g h r w
  unfolding insert
  insert-two w = elim (ℕ_discrete g h) [
    | yes e ↦ absurd (apart e)
    | no n ↦ elim (ℕ_discrete h h) [ yes e ↦ ground arith | no m ↦ absurd (m refl) ]
  ]

  remove-two : remove ℕ_discrete h (two g h r q) ≡ one g r
  unfolding remove
  remove-two = elim (ℕ_discrete g h) [
    | yes e ↦ absurd (apart e)
    | no n ↦ elim (ℕ_discrete h h) [ yes e ↦ ground arith | no m ↦ absurd (m refl) ]
  ]

module _ {Regex E : Type 0} (to_lowercase : String → String)
    (build : String → Bool → Result E Regex) (is_match : Regex → String → Bool)
    (to_string : E → String) where
  go : LogFilterIndex → Event → LogFilterIndex
  go = step to_lowercase build is_match to_string

  run_on :
      (i : LogFilterIndex) {j k : LogFilterIndex} (e : Event) (es : List Event)
      → go i e ≡ j
      → run to_lowercase build is_match to_string j es ≡ k
      → run to_lowercase build is_match to_string i (e ∷ es) ≡ k
  unfolding run go
  run_on i e es h k = ap (λ x. run to_lowercase build is_match to_string x es) h ∙ k

  requested :
      (i : LogFilterIndex) (g : ℕ) (records : List SequencedLogRecord) (spec : LogFilterSpec)
      → (i.requested_generation + 1) % 2 ^ 64 ≡ g
      → go i (requests records spec) ≡ record i {
        requested_generation = g;
        rebuilds =
            insert ℕ_discrete g
              (checking (rebuilt to_lowercase build is_match to_string g records spec))
              i.rebuilds;
      }
  unfolding go step rebuild
  requested i g records spec e =
      ap
        (λ (k : ℕ). record i {
          requested_generation = k;
          rebuilds =
              insert ℕ_discrete k
                (checking (rebuilt to_lowercase build is_match to_string k records spec))
                i.rebuilds;
        })
        e

  checked :
      (i : LogFilterIndex) (g : ℕ) (s : LogFilterSnapshot)
      → i.requested_generation ≡ g
      → lookup ℕ_discrete g i.rebuilds ≡ some (checking s)
      → go i (checks g) ≡ record i { rebuilds = insert ℕ_discrete g (writing s) i.rebuilds }
  unfolding go check
  checked i g s e h = step-checks to_lowercase build is_match to_string i g h ∙ ground arith

  written :
      (i : LogFilterIndex) (g : ℕ) (s : LogFilterSnapshot)
      → lookup ℕ_discrete g i.rebuilds ≡ some (writing s)
      → go i (writes g) ≡ record i { snapshot = s; rebuilds = remove ℕ_discrete g i.rebuilds }
  unfolding go write
  written i g s h = step-writes to_lowercase build is_match to_string i g h

  abbrev at : ℕ → LogFilterSnapshot → List (ℕ × Rebuild) → LogFilterIndex
  at g s rs = record { requested_generation = g; snapshot = s; rebuilds = rs }

  -- In an index without tasks, and with generations that do not wrap: an older rebuild passes its
  -- check, a newer one is requested and writes its snapshot, and then the older one writes: all
  -- tasks have ended, and the older snapshot is seen.
  pub stale_published :
      (i : LogFilterIndex) (old new : List SequencedLogRecord) (old_spec new_spec : LogFilterSpec)
      → i.rebuilds ≡ []
      → i.requested_generation + 2 < 2 ^ 64
      → let first = i.requested_generation + 1 in
        let second = i.requested_generation + 2 in
        run to_lowercase build is_match to_string i (
          requests old old_spec
          ∷ checks first
          ∷ requests new new_spec
          ∷ checks second
          ∷ writes second
          ∷ writes first
          ∷ [])
        ≡ record {
          requested_generation = second;
          snapshot = rebuilt to_lowercase build is_match to_string first old old_spec;
          rebuilds = [];
        }
  unfolding insert
  stale_published i old new old_spec new_spec idle few =
      run_on _ _ _
        (requested i first old old_spec (omega arith)
          ∙ ap (λ l. at first i.snapshot (insert ℕ_discrete first (checking a) l)) idle)
        (run_on _ _ _
          (checked (at first i.snapshot (one first (checking a))) first a refl
              (lookup-one first second apart (checking a) (checking a))
            ∙ ap (at first i.snapshot)
                (insert-one first second apart (checking a) (checking a) (writing a)))
          (run_on _ _ _
            (requested (at first i.snapshot (one first (writing a))) second new new_spec
                (omega arith)
              ∙ ap (at second i.snapshot)
                  (insert-other first second apart (writing a) (checking b)))
            (run_on _ _ _
              (checked (at second i.snapshot (two first second (writing a) (checking b))) second b
                  refl (lookup-two first second apart (writing a) (checking b))
                ∙ ap (at second i.snapshot)
                    (insert-two first second apart (writing a) (checking b) (writing b)))
              (run_on _ _ _
                (written (at second i.snapshot (two first second (writing a) (writing b))) second b
                    (lookup-two first second apart (writing a) (writing b))
                  ∙ ap (at second b) (remove-two first second apart (writing a) (writing b)))
                (run_on _ _ _
                  (written (at second b (one first (writing a))) first a
                      (lookup-one first second apart (writing a) (writing a))
                    ∙ ap (at second a) (remove-one first second apart (writing a) (writing a)))
                  ended)))))
    where
      first : ℕ
      first = i.requested_generation + 1

      second : ℕ
      second = i.requested_generation + 2

      apart : first ≢ second
      apart e = omega arith

      a : LogFilterSnapshot
      a = rebuilt to_lowercase build is_match to_string first old old_spec

      b : LogFilterSnapshot
      b = rebuilt to_lowercase build is_match to_string second new new_spec

      ended : run to_lowercase build is_match to_string (at second a []) [] ≡ at second a []
      ended = unfold run in refl
