-- ===== src/Common/Ordered.antt =====
-- A `BTreeMap` with text keys as a list that `insert_sorted` keeps in the order of the keys.
use Prim.Native.Nat.{Ordering}
use Prim.Native.String.{String, compare}
use mathlib.Core.Path.{◌≡◌, refl, subst}
use mathlib.Core.Logic.{ite, ◌≢◌}
use mathlib.Core.List.{List, [], ◌∷◌}
use mathlib.Core.Option.{some}
use native.Mathlib.Omega.{arith}
use text.Mathlib.TextEquality.{path_by_compare}
use text.Mathlib.TextPositions.{compare_refl}
use dexdeck.Common.Tests.{String-discrete}
use dexdeck.Common.Maps.{lookup}

module _ {ℓ} {V : Type ℓ} where
  abbrev pub keys : List (String × V) → List String
  keys [] = []
  keys ((k, _) ∷ m) = k ∷ keys m

  abbrev pub values : List (String × V) → List V
  values [] = []
  values ((_, v) ∷ m) = v ∷ values m

before_ne : (k i : String) → compare k i ≡ Ordering.lt → k ≢ i
before_ne k i e = λ same.
    ground (arith, e, subst (λ (j : String). compare k j ≡ Ordering.eq) same (compare_refl k))

module _ {V : Type 0} where
  -- The new entry stands before the first key that is larger, or in place of its own key.
  abbrev place :
      Ordering
      → (String × V)
      → (String × V)
      → List (String × V)
      → List (String × V)
      → List (String × V)
  place Ordering.lt old new m rest = old ∷ rest
  place Ordering.eq old new m rest = new ∷ m
  place Ordering.gt old new m rest = new ∷ old ∷ m

  unfoldable pub insert_sorted : String → V → List (String × V) → List (String × V)
  insert_sorted i w [] = (i, w) ∷ []
  insert_sorted i w ((k, v) ∷ m) = place (compare k i) (k, v) (i, w) m (insert_sorted i w m)

  -- `BTreeMap::extend`.
  abbrev pub extend : List (String × V) → List (String × V) → List (String × V)
  extend m [] = m
  extend m ((k, v) ∷ later) = extend (insert_sorted k v m) later

  lookup-place :
      (o : Ordering) (i j k : String) (w v : V) (m rest : List (String × V))
      → compare k i ≡ o
      → lookup String-discrete j rest
        ≡ ite (String-discrete i j) (some w) (lookup String-discrete j m)
      → lookup String-discrete j (place o (k, v) (i, w) m rest)
        ≡ ite (String-discrete i j) (some w) (lookup String-discrete j ((k, v) ∷ m))
  unfolding lookup
  lookup-place Ordering.lt i j k w v m rest e h = ground (arith, h, before_ne k i e)
  lookup-place Ordering.eq i j k w v m rest e h = ground (arith, path_by_compare k i e)
  lookup-place Ordering.gt i j k w v m rest e h = refl

  pub lookup-insert_sorted :
      (i j : String) (w : V) (m : List (String × V))
      → lookup String-discrete j (insert_sorted i w m)
        ≡ ite (String-discrete i j) (some w) (lookup String-discrete j m)
  unfolding lookup insert_sorted
  lookup-insert_sorted i j w [] = refl
  lookup-insert_sorted i j w ((k, v) ∷ m) =
      lookup-place (compare k i) i j k w v m (insert_sorted i w m) refl
        (lookup-insert_sorted i j w m)
