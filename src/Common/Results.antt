-- ===== src/Common/Results.antt =====
-- `Result`, and the chains of `?` over it as do blocks.
use mathlib.Core.Path.{◌≡◌, refl}
use mathlib.Core.Logic.{◌⊎◌, inl, inr, ◌↔◌}
use native.Mathlib.Omega.{arith}
use dexdeck.Common.Lists.{All}
use mathlib.Core.Bool.{Bool, true, false}
use mathlib.Core.Option.{Option, none, some}
use mathlib.Core.List.{List, [], ◌∷◌}

pub data Result {ℓ} (Failure Value : Type ℓ) : Type ℓ where
  ok : Value → Result Failure Value
  err : Failure → Result Failure Value

infixl 5 ◌>>=◌
abbrev pub ◌>>=◌ {ℓ} :
    {Failure Value Next : Type ℓ}
    → Result Failure Value
    → (Value → Result Failure Next)
    → Result Failure Next
ok value >>= later = later value
err failure >>= later = err failure

infixl 5 ◌>>◌
abbrev pub ◌>>◌ :
    {Failure Next : Type 0} → Result Failure (Unit {0}) → Result Failure Next → Result Failure Next
ok tt >> later = later
err failure >> later = err failure

-- An early `return Err(failure)` under a test.
abbrev pub fail_if : {Failure : Type 0} → Bool → Failure → Result Failure (Unit {0})
fail_if true failure = err failure
fail_if false failure = ok tt

abbrev pub map_err {ℓ} :
    {Failure Other Value : Type ℓ} → (Failure → Other) → Result Failure Value → Result Other Value
map_err f (ok value) = ok value
map_err f (err failure) = err (f failure)

abbrev pub ok_or_else {ℓ} : {Failure Value : Type ℓ} → Option Value → Failure → Result Failure Value
ok_or_else (some value) failure = ok value
ok_or_else none failure = err failure

-- A loop that returns the first failure.
abbrev pub for_each :
    {A Failure : Type 0} → (A → Result Failure (Unit {0})) → List A → Result Failure (Unit {0})
for_each f [] = ok tt
for_each f (x ∷ xs) = let rest = for_each f xs in f x >> rest

pub Result-cases {ℓ} :
    {Failure Value : Type ℓ} (r : Result Failure Value)
    → ((value : Value) × (r ≡ ok value)) ⊎ ((failure : Failure) × (r ≡ err failure))
Result-cases (ok value) = inl (value, refl)
Result-cases (err failure) = inr (failure, refl)

module _ {Failure : Type 0} where
  pub fail_if_iff : (b : Bool) (failure : Failure) → (fail_if b failure ≡ ok tt) ↔ (b ≡ false)
  fail_if_iff true failure = (λ e. cc, λ e. cc)
  fail_if_iff false failure = (λ e. refl, λ e. refl)

  pub both_iff :
      {P Q : Type 0} (first second : Result Failure (Unit {0}))
      → (first ≡ ok tt ↔ P)
      → (second ≡ ok tt ↔ Q)
      → ((first >> second) ≡ ok tt) ↔ (P × Q)
  both_iff (ok tt) second p q = (λ e. (p.0 refl, q.0 e), λ h. q.1 h.1)
  both_iff (err failure) second p q = (λ e. cc, λ h. ground (arith, p.1 h.0))

  pub for_each_iff :
      {A : Type 0} {P : A → Type 0} (f : A → Result Failure (Unit {0})) (xs : List A)
      → ((x : A) → (f x ≡ ok tt) ↔ P x)
      → (for_each f xs ≡ ok tt) ↔ All P xs
  for_each_iff f [] each = (λ e. tt, λ h. refl)
  for_each_iff f (x ∷ xs) each = both_iff (f x) (for_each f xs) (each x) (for_each_iff f xs each)

-- A chain that comes to its end has passed its first step.
pub bind_ok {ℓ} :
    {Failure Value Next : Type ℓ} (r : Result Failure Value) (later : Value → Result Failure Next)
    {result : Next}
    → (r >>= later) ≡ ok result
    → (value : Value) × ((r ≡ ok value) × (later value ≡ ok result))
bind_ok (ok value) later h = (value, (refl, h))
bind_ok (err failure) later h = cc

pub ok_injective :
    {Failure Value : Type 0} {a b : Value} → ◌≡◌ {A = Result Failure Value} (ok a) (ok b) → a ≡ b
ok_injective h = cc

pub err_injective :
    {Failure Value : Type 0} {a b : Failure}
    → ◌≡◌ {A = Result Failure Value} (err a) (err b)
    → a ≡ b
err_injective h = cc
