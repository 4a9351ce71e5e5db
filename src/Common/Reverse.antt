-- ===== src/Common/Reverse.antt =====
-- The last entries of a list: `rev().take(n)`, put back in order.
use mathlib.Core.Path.{◌≡◌, refl, sym, ap, ◌∙◌}
use mathlib.Core.List.{List, [], ◌∷◌, ◌++◌, reverse, reverse-cons, reverse-reverse}
use Prim.Native.Nat.{ℕ, zero, suc, ◌-◌}
use native.Mathlib.Omega.{arith}
use dexdeck.Common.Lists.{length, take, drop, length-append, drop_past, drop-append_within}

module _ {ℓ} {A : Type ℓ} where
  pub length-reverse : (xs : List A) → length (reverse xs) ≡ length xs
  length-reverse [] = refl
  length-reverse (x ∷ xs) =
      omega (
        arith,
        ap length (reverse-cons x xs),
        length-append (reverse xs) (x ∷ []),
        length-reverse xs,
      )

  reverse-take : (n : ℕ) (xs : List A) → reverse (take n xs) ≡ drop (length xs - n) (reverse xs)
  reverse-take zero xs =
      sym (drop_past (length xs - 0) (reverse xs) (omega (arith, length-reverse xs)))
  reverse-take (suc n) [] = sym (drop_past (0 - suc n) [] (omega arith))
  reverse-take (suc n) (x ∷ xs) =
      reverse-cons x (take n xs)
      ∙ ap (λ zs. zs ++ x ∷ []) (reverse-take n xs)
      ∙ sym (
          drop-append_within (length xs - n) (reverse xs) (x ∷ [])
            (omega (arith, length-reverse xs)))
      ∙ ap (drop (length xs - n)) (sym (reverse-cons x xs))
      ∙ ap (λ (k : ℕ). drop k (reverse (x ∷ xs))) (both_shorter (length xs))
    where
      both_shorter : (m : ℕ) → m - n ≡ suc m - suc n
      both_shorter m = omega arith

  -- The last `n` entries are what is left when the others are dropped.
  pub newest_drop : (n : ℕ) (xs : List A) → reverse (take n (reverse xs)) ≡ drop (length xs - n) xs
  newest_drop n xs =
      reverse-take n (reverse xs)
      ∙ ap (λ (k : ℕ). drop (k - n) (reverse (reverse xs))) (length-reverse xs)
      ∙ ap (drop (length xs - n)) (reverse-reverse xs)
