-- ===== src/ModelRefresh/Sessions.antt =====
-- Refreshes that overlap: which of their answers is taken.
use dexdeck.Common.{
  ℕ, ◌+◌, ◌≤◌, ◌<◌, ◌≡◌, refl, arith, ◌⊎◌, some, Bool, true, false, List, [], ◌∷◌, length, u64_max,
  if◌then◌else◌, any,
}
use dexdeck.ModelRefresh.{ModelRefresh, current, begin, complete, fail, cancel}

module _ (Model : Type 0) where
  pub data Op : Type 0 where
    begins cancels : Op
    completes : ℕ → Model → Op
    fails : ℕ → Bool → Op

abbrev pub one_if : Bool → ℕ
one_if true = 1
one_if false = 0

module _ {Model : Type 0} where
  unfoldable pub step : ModelRefresh Model → Op Model → ModelRefresh Model
  unfolding begin complete fail cancel
  step r begins = (begin r).0
  step r cancels = cancel r
  step r (completes g m) = (complete g m r).0
  step r (fails g d) = fail g d r

  unfoldable pub run : ModelRefresh Model → List (Op Model) → ModelRefresh Model
  unfolding step
  run r [] = r
  run r (o ∷ os) = run (step r o) os

  -- A newer refresh, or the user, has put an end to this one.
  abbrev pub supersedes : Op Model → Bool
  supersedes begins = true
  supersedes cancels = true
  supersedes _ = false

  step-generation :
      (r : ModelRefresh Model) (o : Op Model)
      → r.generation < u64_max
      → (step r o).generation ≡ r.generation + one_if (supersedes o)
  unfolding step
  step-generation r begins h = omega arith
  step-generation r cancels h = omega arith
  step-generation r (completes g m) h = ground arith
  step-generation r (fails g d) h = ground arith

  run-generation :
      (r : ModelRefresh Model) (os : List (Op Model))
      → r.generation + length os ≤ u64_max
      → ((any supersedes os ≡ true) × (r.generation < (run r os).generation))
        ⊎ ((any supersedes os ≡ false) × ((run r os).generation ≡ r.generation))
  unfolding run
  run-generation r [] h = ground arith
  run-generation r (o ∷ os) h = ground (
    arith,
    step-generation r o (omega arith),
    run-generation (step r o) os (few o (step-generation r o (omega arith))),
  )
    where
      few :
          (o : Op Model)
          → (step r o).generation ≡ r.generation + one_if (supersedes o)
          → (step r o).generation + length os ≤ u64_max
      few o e = ground arith

  -- While the generations stay below 2 ^ 64, the answer to a refresh is taken exactly when no other
  -- refresh has begun and none has been cancelled since it began, whatever answers and failures
  -- came in between. If it is taken the model is the answer and is current; if not, nothing changes.
  pub complete-begin :
      (r : ModelRefresh Model) (os : List (Op Model)) (m : Model)
      → r.generation + 1 + length os ≤ u64_max
      → let now = run (begin r).0 os in
        complete (begin r).1 m now ≡ (
          if any supersedes os
          then (now, false)
          else (record now { model = some m; freshness = current }, true))
  unfolding complete begin
  complete-begin r os m h =
      let first : (begin r).1 ≡ r.generation + 1 = omega arith in
      ground (arith, first, run-generation (begin r).0 os (omega arith))

  abbrev pub is_complete : Op Model → Bool
  is_complete (completes _ _) = true
  is_complete _ = false

  -- Whatever begins, fails or is cancelled, as long as no answer comes the model stays.
  pub run-model :
      (r : ModelRefresh Model) (os : List (Op Model))
      → any is_complete os ≡ false
      → (run r os).model ≡ r.model
  unfolding run step begin fail cancel
  run-model r [] h = refl
  run-model r (o ∷ os) h = ground (arith, run-model (step r o) os)
