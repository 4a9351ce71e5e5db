-- ===== src/Common/Bounded.antt =====
-- A `VecDeque` with a limit: `pop_front` when it is full, then `push_back`.
use Prim.Native.Nat.{ℕ, ◌+◌, ◌-◌, ◌≤◌, ◌<◌}
use mathlib.Core.List.{List, [], ◌∷◌, ◌++◌, append-nil, append_assoc}
use mathlib.Core.Logic.{inl, inr}
use mathlib.Core.Path.{◌≡◌, sym, ap, ◌∙◌}
use native.Mathlib.Omega.{arith}
use dexdeck.Common.Lists.{length, drop, length-append, length-drop, drop-drop, drop-append_within}
use dexdeck.Common.Tests.{if◌then◌else◌, ◌==◌, Bool-cases}

module _ {ℓ} {A : Type ℓ} where
  unfoldable pub push_bounded : ℕ → List A → A → List A
  push_bounded limit xs x = (if length xs == limit then drop 1 xs else xs) ++ x ∷ []

  unfoldable pub push_all : ℕ → List A → List A → List A
  push_all limit xs [] = xs
  push_all limit xs (y ∷ ys) = push_all limit (push_bounded limit xs y) ys

  drop_at : (m n : ℕ) (xs : List A) → m ≡ n → drop m xs ≡ drop n xs
  drop_at m n xs e = ap (λ (k : ℕ). drop k xs) e

  -- One push keeps the newest `limit` entries.
  pub push_bounded-drop :
      (limit : ℕ) (xs : List A) (x : A)
      → 0 < limit
      → length xs ≤ limit
      → push_bounded limit xs x ≡ drop (length xs + 1 - limit) (xs ++ x ∷ [])
  unfolding push_bounded
  push_bounded-drop limit xs x p h = elim (Bool-cases (length xs == limit)) [
    | inl full ↦ rw full (
        sym (drop-append_within 1 xs (x ∷ []) (ground arith))
        ∙ drop_at 1 (length xs + 1 - limit) (xs ++ x ∷ []) (ground arith))
    | inr room ↦ rw room (drop_at 0 (length xs + 1 - limit) (xs ++ x ∷ []) (ground arith))
  ]

  pub length-push_bounded :
      (limit : ℕ) (xs : List A) (x : A)
      → 0 < limit
      → length xs ≤ limit
      → length (push_bounded limit xs x) ≤ limit
  length-push_bounded limit xs x p h = omega (
    arith,
    ap length (push_bounded-drop limit xs x p h),
    length-drop (length xs + 1 - limit) (xs ++ x ∷ []),
    length-append xs (x ∷ []),
  )

  -- Any number of pushes keep the newest `limit` entries of all.
  pub push_all-drop :
      (limit : ℕ) (xs ys : List A)
      → 0 < limit
      → length xs ≤ limit
      → push_all limit xs ys ≡ drop (length xs + length ys - limit) (xs ++ ys)
  unfolding push_all
  push_all-drop limit xs [] p h =
      sym (append-nil xs) ∙ drop_at 0 (length xs + 0 - limit) (xs ++ []) (omega arith)
  push_all-drop limit xs (y ∷ ys) p h =
      push_all-drop limit (push_bounded limit xs y) ys p (length-push_bounded limit xs y p h)
      ∙ ap (λ t. drop (length t + length ys - limit) (t ++ ys)) (push_bounded-drop limit xs y p h)
      ∙ ap (drop (length (drop over (xs ++ y ∷ [])) + length ys - limit)) (
          sym
            (drop-append_within over (xs ++ y ∷ []) ys (omega (arith, length-append xs (y ∷ [])))))
      ∙ drop-drop _ over ((xs ++ y ∷ []) ++ ys)
      ∙ ap (drop _) (append_assoc xs (y ∷ []) ys)
      ∙ drop_at _ _ (xs ++ y ∷ ys)
          (omega (arith, length-drop over (xs ++ y ∷ []), length-append xs (y ∷ [])))
    where
      over : ℕ
      over = length xs + 1 - limit
