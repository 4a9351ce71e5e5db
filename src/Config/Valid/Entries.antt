-- ===== src/Config/Valid/Entries.antt =====
-- crates/dexdeck-config/src/schema.rs: the tests on the names and the values of an environment,
-- against the descriptions of them.

use mathlib.Core.List.{Memᴰ}
use dexdeck.Common.{
  ℕ, ◌≡◌, ◌≢◌, ◌↔◌, inl, inr, refl, arith, ap, subst, String, Bool, true, false, not, ◌&&◌,
  Bool-cases, List, [], ◌∷◌, map, any, All, ◌==◌,
}
use dexdeck.Common.Text.{codes, ascii_lower, contains_codes_iff}
use dexdeck.Common.Results.{ok, fail_if, fail_if_iff, both_iff, for_each_iff}
use dexdeck.Config.{ConfigError, EnvironmentValue, literal, integer, boolean, from_environment}
use dexdeck.Config.Validation.{
  all, name_codes, is_name_start, is_name_part, valid_environment_name, markers, sensitive_name,
  is_from_environment, bad_reference, validate_entry, validate_environment,
}
use dexdeck.Config.Valid.{
  NameStart, NamePart, NameCodes, EnvironmentName, Sensitive, Referenced, ValidEntry,
}

is_name_start_iff : (c : ℕ) → (is_name_start c ≡ true) ↔ NameStart c
is_name_start_iff c = (λ e. ground arith, λ h. ground arith)

is_name_part_iff : (c : ℕ) → (is_name_part c ≡ true) ↔ NamePart c
is_name_part_iff c = (λ e. ground arith, λ h. ground arith)

module _ {p : ℕ → Bool} {P : ℕ → Type 0} (each : (c : ℕ) → (p c ≡ true) ↔ P c) where
  all_iff : (characters : List ℕ) → (all p characters ≡ true) ↔ All P characters
  all_iff [] = (λ e. tt, λ h. refl)
  all_iff (c ∷ rest) = (
    λ e. ((each c).0 (ground arith), (all_iff rest).0 (ground arith)),
    λ h. ground (arith, (each c).1 h.0, (all_iff rest).1 h.1),
  )

name_codes_iff : (characters : List ℕ) → (name_codes characters ≡ true) ↔ NameCodes characters
name_codes_iff [] = (λ e. cc, λ h. absurd h)
name_codes_iff (c ∷ rest) = (
  λ e. ((is_name_start_iff c).0 (ground arith), (all_iff is_name_part_iff rest).0 (ground arith)),
  λ h. ground (arith, (is_name_start_iff c).1 h.0, (all_iff is_name_part_iff rest).1 h.1),
)

pub valid_environment_name_iff :
    (name : String) → (valid_environment_name name ≡ true) ↔ EnvironmentName name
unfolding valid_environment_name
valid_environment_name_iff name = name_codes_iff (codes name)

module _ {A : Type 0} {p : A → Bool} {P : A → Type 0} (each : (a : A) → (p a ≡ true) ↔ P a) where
  any_found : (xs : List A) (a : A) → Memᴰ a xs → P a → any p xs ≡ true
  any_found [] a m holds = elim m [ ]
  any_found (x ∷ xs) a (Memᴰ.head e) holds = ground (arith, (each x).1 (subst P e holds))
  any_found (x ∷ xs) a (Memᴰ.tail m) holds = ground (arith, any_found xs a m holds)

  pub any_iff : (xs : List A) → (any p xs ≡ true) ↔ ((a : A) × (Memᴰ a xs × P a))
  any_iff [] = (λ e. cc, λ h. elim h.1.0 [ ])
  any_iff (x ∷ xs) = (
    λ e. elim (Bool-cases (p x)) [
      | inl here ↦ (x, (Memᴰ.head refl, (each x).0 here))
      | inr not_here ↦
          let (a, (m, holds)) = (any_iff xs).0 (ground (arith, not_here)) in
          (a, (Memᴰ.tail m, holds))
    ],
    λ h. any_found (x ∷ xs) h.0 h.1.0 h.1.1,
  )

module _ {A : Type 0} {p : A → Bool} {P : A → Type 0} (each : (a : A) → (p a ≡ false) ↔ P a) where
  pub none_iff : (xs : List A) → (any p xs ≡ false) ↔ All P xs
  none_iff [] = (λ e. tt, λ h. refl)
  none_iff (x ∷ xs) = (
    λ e. ((each x).0 (ground arith), (none_iff xs).0 (ground arith)),
    λ h. ground (arith, (each x).1 h.0, (none_iff xs).1 h.1),
  )

pub zero_iff : (c : ℕ) → ((c == 0) ≡ false) ↔ (c ≢ 0)
zero_iff c = (λ e. ground arith, λ h. ground arith)

pub sensitive_name_iff : (name : String) → (sensitive_name name ≡ true) ↔ Sensitive name
unfolding sensitive_name
sensitive_name_iff name =
    any_iff (λ marker. contains_codes_iff (map ascii_lower (codes name)) (codes marker)) markers

-- An early return under a test, against what the test is false of.
pub unless_iff :
    (b : Bool) (failure : ConfigError) {P : Type 0}
    → (b ≡ false ↔ P)
    → (fail_if b failure ≡ ok tt) ↔ P
unless_iff b failure p =
    (λ e. p.0 ((fail_if_iff b failure).0 e), λ h. (fail_if_iff b failure).1 (p.1 h))

pub not_iff : (b : Bool) {P : Type 0} → (b ≡ true ↔ P) → (not b ≡ false) ↔ P
not_iff b p = (λ e. p.0 (ground arith), λ h. ground (arith, p.1 h))

is_from_environment_iff :
    (value : EnvironmentValue) → (is_from_environment value ≡ true) ↔ Referenced value
is_from_environment_iff (from_environment from_env) = (λ e. (from_env, refl), λ h. refl)
is_from_environment_iff (literal s) = (λ e. cc, λ h. cc)
is_from_environment_iff (integer n) = (λ e. cc, λ h. cc)
is_from_environment_iff (boolean b) = (λ e. cc, λ h. cc)

implies_iff :
    (a b : Bool) {P Q : Type 0} → (a ≡ true ↔ P) → (b ≡ true ↔ Q) → ((a && not b) ≡ false) ↔ (P → Q)
implies_iff true b p q = (λ e held. q.0 (ground arith), λ h. ground (arith, q.1 (h (p.0 refl))))
implies_iff false b p q = (λ e held. ground (arith, p.1 held), λ h. refl)

bad_reference_iff :
    (value : EnvironmentValue)
    → (bad_reference value ≡ false)
      ↔ ((from_env : String) → value ≡ from_environment from_env → EnvironmentName from_env)
bad_reference_iff (from_environment name) = (
  λ e from_env same.
      subst EnvironmentName (ap referred same) ((valid_environment_name_iff name).0 (ground arith)),
  λ h. ground (arith, (valid_environment_name_iff name).1 (h name refl)),
)
  where
    referred : EnvironmentValue → String
    referred (from_environment from_env) = from_env
    referred (literal s) = s
    referred (integer n) = ""
    referred (boolean b) = ""
bad_reference_iff (literal s) = (λ e from_env same. cc, λ h. refl)
bad_reference_iff (integer n) = (λ e from_env same. cc, λ h. refl)
bad_reference_iff (boolean b) = (λ e from_env same. cc, λ h. refl)

validate_entry_iff :
    (path field : String) (entry : String × EnvironmentValue)
    → (validate_entry path field entry ≡ ok tt) ↔ ValidEntry entry
validate_entry_iff path field (name, value) =
    both_iff _ _ (unless_iff _ _ (not_iff _ (valid_environment_name_iff name))) (
      both_iff _ _
        (unless_iff _ _ (implies_iff _ _ (sensitive_name_iff name) (is_from_environment_iff value)))
        (unless_iff _ _ (bad_reference_iff value)))

pub validate_environment_iff :
    (path field : String) (environment : List (String × EnvironmentValue))
    → (validate_environment path field environment ≡ ok tt) ↔ All ValidEntry environment
unfolding validate_environment
validate_environment_iff path field environment =
    for_each_iff (validate_entry path field) environment (validate_entry_iff path field)
