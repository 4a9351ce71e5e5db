-- ===== src/Common/Maps.antt =====
-- Hash maps and hash sets as lists. The sources look entries up, insert, change and remove them;
-- they do not depend on an order, so the laws are about `lookup` and `contains` alone.
use mathlib.Core.Path.{◌≡◌, refl, subst}
use mathlib.Core.Logic.{ite}
use mathlib.Core.Bool.{Bool, true, false, not, ◌&&◌, ◌||◌, decide}
use mathlib.Core.List.{List, [], ◌∷◌, ◌++◌}
use mathlib.Core.Option
use mathlib.Core.Option.{Option, none, some}
use native.Mathlib.Omega.{arith}
use mathlib.Core.Logic.{inl, inr}
use dexdeck.Common.Tests.{Bool-cases, if◌then◌else◌}

module _ {ℓ} {K V : Type ℓ} (dec : Discrete K) where
  unfoldable pub lookup : K → List (K × V) → Option V
  lookup j [] = none
  lookup j ((k, v) ∷ m) = ite (dec k j) (some v) (lookup j m)

  unfoldable pub insert : K → V → List (K × V) → List (K × V)
  insert i w [] = (i, w) ∷ []
  insert i w ((k, v) ∷ m) = ite (dec k i) ((i, w) ∷ m) ((k, v) ∷ insert i w m)

  unfoldable pub remove : K → List (K × V) → List (K × V)
  remove i [] = []
  remove i ((k, v) ∷ m) = ite (dec k i) (remove i m) ((k, v) ∷ remove i m)

  -- A write through `get_mut`.
  unfoldable pub update : K → (V → V) → List (K × V) → List (K × V)
  update i f [] = []
  update i f ((k, v) ∷ m) = ite (dec k i) ((k, f v) ∷ m) ((k, v) ∷ update i f m)

  pub lookup-insert :
      (i j : K) (w : V) (m : List (K × V))
      → lookup j (insert i w m) ≡ ite (dec i j) (some w) (lookup j m)
  unfolding lookup insert
  lookup-insert i j w [] = refl
  lookup-insert i j w ((k, v) ∷ m) = ground (arith, lookup-insert i j w m)

  pub lookup-remove :
      (i j : K) (m : List (K × V)) → lookup j (remove i m) ≡ ite (dec i j) none (lookup j m)
  unfolding lookup remove
  lookup-remove i j [] = ground arith
  lookup-remove i j ((k, v) ∷ m) = ground (arith, lookup-remove i j m)

  pub lookup-update :
      (i j : K) (f : V → V) (m : List (K × V))
      → lookup j (update i f m) ≡ ite (dec i j) (Option.map f (lookup j m)) (lookup j m)
  unfolding lookup update
  lookup-update i j f [] = ground arith
  lookup-update i j f ((k, v) ∷ m) = ground (arith, lookup-update i j f m)

module _ {ℓ} {A : Type ℓ} (dec : Discrete A) where
  unfoldable pub contains : A → List A → Bool
  contains a [] = false
  contains a (x ∷ xs) = decide (dec x a) || contains a xs

  unfoldable pub insert_set : A → List A → List A
  insert_set a xs = if contains a xs then xs else a ∷ xs

  -- Also `retain(|x| x != a)`.
  unfoldable pub remove_all : A → List A → List A
  remove_all a [] = []
  remove_all a (x ∷ xs) = if decide (dec x a) then remove_all a xs else x ∷ remove_all a xs

  pub contains-insert_set :
      (a b : A) (xs : List A) → contains b (insert_set a xs) ≡ (decide (dec a b) || contains b xs)
  unfolding insert_set decide
  contains-insert_set a b xs = elim (Bool-cases (contains a xs)) [
    | inl old ↦ rw old (elim (dec a b) [
      | yes e ↦ ground (arith, subst (λ c. contains c xs ≡ true) e old)
      | no n ↦ ground arith
    ])
    | inr new ↦ rw new (unfold contains in refl)
  ]

  pub contains-remove_all :
      (a b : A) (xs : List A)
      → contains b (remove_all a xs) ≡ (not (decide (dec a b)) && contains b xs)
  unfolding contains remove_all decide
  contains-remove_all a b [] = ground arith
  contains-remove_all a b (x ∷ xs) = ground (arith, contains-remove_all a b xs)

  pub contains-append :
      (a b : A) (xs : List A) → contains b (xs ++ a ∷ []) ≡ (decide (dec a b) || contains b xs)
  unfolding contains
  contains-append a b [] = ground arith
  contains-append a b (x ∷ xs) = ground (arith, contains-append a b xs)
