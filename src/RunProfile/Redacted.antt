-- ===== src/RunProfile/Redacted.antt =====
-- crates/dexdeck-core/src/run_profile.rs and secret.rs: what a run is given is known to the
-- redactor.

use mathlib.Core.List.{Memᴰ}
use dexdeck.Common.{
  ◌≡◌, refl, sym, ap, subst, arith, String, String-discrete, Option, true, Bool-cases, inl, inr,
  List, [], ◌∷◌, ◌++◌, All, contains, decide,
}
use dexdeck.Common.Int.{ℤ}
use dexdeck.Common.Results.{Result, ok, err, ok_injective}
use dexdeck.Config.{EnvironmentValue}
use dexdeck.Secret.{OsString, unicode, raw, SensitiveValue, SecretRedactor, register_os, register}
use dexdeck.RunProfile.{RunProfileError}
use dexdeck.RunProfile.Resolve.{then_with, registered, sensitive_of, resolve_environment}
use dexdeck.RunProfile.Runnable.{then_with_ok}

-- The redactor looks for the text of the value, unless it is empty or no text.
abbrev pub Covered : SecretRedactor → OsString → Type 0
Covered redactor (raw bytes) = Unit
Covered redactor (unicode String.[]) = Unit
Covered redactor (unicode (String.◌∷◌ c rest)) = Memᴰ (String.◌∷◌ c rest) redactor.patterns

-- Each pattern of the first is one of the second.
abbrev pub Extends : SecretRedactor → SecretRedactor → Type 0
Extends before after = (text : String) → Memᴰ text before.patterns → Memᴰ text after.patterns

Covered-Extends :
    (before after : SecretRedactor) (value : OsString)
    → Extends before after
    → Covered before value
    → Covered after value
Covered-Extends before after (raw bytes) more h = tt
Covered-Extends before after (unicode String.[]) more h = tt
Covered-Extends before after (unicode (String.◌∷◌ c rest)) more h = more (String.◌∷◌ c rest) h

contains-Memᴰ :
    (text : String) (texts : List String)
    → contains String-discrete text texts ≡ true
    → Memᴰ text texts
unfolding contains decide
contains-Memᴰ text [] h = cc
contains-Memᴰ text (t ∷ texts) h = elim (String-discrete t text) [
  | yes e ↦ Memᴰ.head (sym e)
  | no n ↦ Memᴰ.tail (contains-Memᴰ text texts (ground arith))
]

append-Memᴰ : {A : Type 0} (x y : A) (xs : List A) → Memᴰ x xs → Memᴰ x (xs ++ y ∷ [])
append-Memᴰ x y [] m = elim m [ ]
append-Memᴰ x y (z ∷ xs) (Memᴰ.head e) = Memᴰ.head e
append-Memᴰ x y (z ∷ xs) (Memᴰ.tail m) = Memᴰ.tail (append-Memᴰ x y xs m)

last-Memᴰ : {A : Type 0} (x : A) (xs : List A) → Memᴰ x (xs ++ x ∷ [])
last-Memᴰ x [] = Memᴰ.head refl
last-Memᴰ x (z ∷ xs) = Memᴰ.tail (last-Memᴰ x xs)

-- A sort loses nothing.
abbrev pub Keeps : (List String → List String) → Type 0
Keeps sort = (text : String) (texts : List String) → Memᴰ text texts → Memᴰ text (sort texts)

All-Covered :
    (before after : SecretRedactor) (values : List (String × SensitiveValue))
    → Extends before after
    → All (λ entry. Covered before entry.1.value) values
    → All (λ entry. Covered after entry.1.value) values
All-Covered before after [] more h = tt
All-Covered before after ((name, v) ∷ values) more (here, later) =
    (Covered-Extends before after v.value more here, All-Covered before after values more later)

module _ (sort_longest_first : List String → List String) (keeps : Keeps sort_longest_first) where
  register-Covered :
      (redactor : SecretRedactor) (v : SensitiveValue)
      → Covered (register sort_longest_first redactor v) v.value
        × Extends redactor (register sort_longest_first redactor v)
  unfolding register
  register-Covered redactor v = by_value v.value
    where
      new : (text : String) → Memᴰ text (sort_longest_first (redactor.patterns ++ text ∷ []))
      new text = keeps text _ (last-Memᴰ text redactor.patterns)

      more :
          (text : String)
          → Extends redactor
              (record { patterns = sort_longest_first (redactor.patterns ++ text ∷ []) })
      more text old m = keeps old _ (append-Memᴰ old text redactor.patterns m)

      by_value :
          (value : OsString)
          → Covered (register_os sort_longest_first redactor value) value
            × Extends redactor (register_os sort_longest_first redactor value)
      by_value (raw bytes) = (tt, λ text m. m)
      by_value (unicode String.[]) = (tt, λ text m. m)
      by_value (unicode (String.◌∷◌ c rest)) =
          elim (Bool-cases (contains String-discrete (String.◌∷◌ c rest) redactor.patterns)) [
            | inl old ↦ rw old (contains-Memᴰ _ redactor.patterns old, λ text m. m)
            | inr unseen ↦ rw unseen (new (String.◌∷◌ c rest), more (String.◌∷◌ c rest))
          ]

  module _ (environment_of : String → Option OsString) (decimal : ℤ → String) where
    registered-Covered :
        (o : Result RunProfileError SensitiveValue) (redactor after : SecretRedactor)
        (v : SensitiveValue)
        → registered environment_of decimal sort_longest_first o redactor ≡ (ok v, after)
        → Covered after v.value × Extends redactor after
    registered-Covered (err failure) redactor after v h = cc
    registered-Covered (ok value) redactor after v h =
        let (covered, more) = register-Covered redactor value in
        let same = ok_injective (ap (λ x. x.0) h) in
        let last = ap (λ x. x.1) h in
        (
          subst (λ x. Covered after x.value) same (subst (λ r. Covered r value.value) last covered),
          subst (Extends redactor) last more,
        )

    -- If the values of an environment are all there, and the sort of the patterns loses none, the
    -- redactor then looks for each of them that is a text and not empty, and still for all that it
    -- looked for before.
    pub resolve_environment-Covered :
        (entries : List (String × EnvironmentValue)) (redactor last : SecretRedactor)
        (values : List (String × SensitiveValue))
        → resolve_environment environment_of decimal sort_longest_first entries redactor
          ≡ (ok values, last)
        → All (λ entry. Covered last entry.1.value) values × Extends redactor last
    unfolding resolve_environment
    resolve_environment-Covered [] redactor last values h =
        let none_left = ok_injective (ap (λ x. x.0) h) in
        (
          subst (λ vs. All (λ entry. Covered last entry.1.value) vs) none_left tt,
          subst (Extends redactor) (ap (λ x. x.1) h) (λ text m. m),
        )
    resolve_environment-Covered ((name, value) ∷ later) redactor last values h =
        let (v, (after, (e1, h1))) =
          then_with_ok
            (λ v after.
              then_with (λ rest end. (ok ((name, v) ∷ rest), end))
                (resolve_environment environment_of decimal sort_longest_first later after))
            (registered environment_of decimal sort_longest_first
              (sensitive_of environment_of decimal sort_longest_first value) redactor)
            h in
        let (rest, (end, (e2, h2))) =
          then_with_ok (λ rest end. (ok ((name, v) ∷ rest), end))
            (resolve_environment environment_of decimal sort_longest_first later after) h1 in
        let (covered, more) = registered-Covered _ redactor after v e1 in
        let (covered_later, more_later) = resolve_environment-Covered later after end rest e2 in
        let last_is = ap (λ x. x.1) h2 in
        (
          subst (λ vs. All (λ entry. Covered last entry.1.value) vs)
              (ok_injective (ap (λ x. x.0) h2))
              (subst (λ r. All (λ entry. Covered r entry.1.value) ((name, v) ∷ rest)) last_is
                (Covered-Extends after end v.value more_later covered, covered_later)),
          subst (Extends redactor) last_is (λ text m. more_later text (more text m)),
        )
