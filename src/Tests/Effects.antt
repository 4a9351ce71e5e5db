-- ===== src/Tests/Effects.antt =====
-- The runtime with numbers for state and effects: two effects are under way, one is cancelled.
use dexdeck.Common.{
  ℕ, ◌≤◌, ◌≡◌, ◌≢◌, ◌⊎◌, inl, inr, refl, arith, Option, none, some, true, false, [], ◌∷◌, lookup,
  contains, ℕ_discrete,
}
use dexdeck.Runtime.{Reduction, Runtime, step}
use dexdeck.Runtime.Cancellation.{Active, Inv, step_cancels}

abbrev completed_effect : ℕ → Option ℕ
completed_effect _ = none

-- An action is the id of the effect that is to be cancelled.
abbrev target_of : ℕ → Option ℕ
target_of a = some a

abbrev reducer : ℕ → ℕ → ℕ → Reduction ℕ ℕ
reducer s a now = record { state = s; effects = a ∷ [] }

abbrev two_effects : Runtime ℕ ℕ
two_effects = record {
  state = 0;
  next_id = 3;
  cancellations = (1, 0) ∷ (2, 1) ∷ [];
  next_token = 2;
  cancelled = [];
  sent = [];
}

one_of_two :
    (id token : ℕ)
    → Active two_effects id token
    → ((id ≡ 1) × (token ≡ 0)) ⊎ ((id ≡ 2) × (token ≡ 1))
unfolding lookup
one_of_two id token h = elim (ℕ_discrete 1 id) [
  | yes e ↦ inl (ground arith)
  | no n ↦ elim (ℕ_discrete 2 id) [ yes e ↦ inr (ground arith) | no m ↦ absurd (ground arith) ]
]

two_effects-Inv : Inv two_effects
two_effects-Inv = record {
  ids_used = λ i t h. ground (arith, one_of_two i t h);
  tokens_used = λ i t h. ground (arith, one_of_two i t h);
  own_token = λ i k t h l. ground (arith, one_of_two i t h, one_of_two k t l);
  cancelled_used = λ t c. unfold contains in absurd (ground arith);
}

step_cancels_example :
    (contains ℕ_discrete 0
        (step completed_effect target_of reducer (λ _. true) 5 1 two_effects).0.cancelled
      ≡ true)
    × ((other t : ℕ)
        → other ≢ 1
        → Active two_effects other t
        → contains ℕ_discrete t
            (step completed_effect target_of reducer (λ _. true) 5 1 two_effects).0.cancelled
          ≡ contains ℕ_discrete t [])
    × ((t : ℕ)
        → 2 ≤ t
        → contains ℕ_discrete t
            (step completed_effect target_of reducer (λ _. true) 5 1 two_effects).0.cancelled
          ≡ false)
    × Inv (step completed_effect target_of reducer (λ _. true) 5 1 two_effects).0
step_cancels_example =
    step_cancels completed_effect target_of reducer (λ _. true) 5 1 two_effects two_effects-Inv refl
      (unfold lookup ℕ_discrete in refl) (omega arith)
