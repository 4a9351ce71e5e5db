-- ===== src/Common/Text.antt =====
-- Texts by their code points, where a source looks at characters, and the tests it makes on them.
use Prim.Native.Nat.{ℕ, ◌+◌}
use Prim.Native.Char.{code}
use Prim.Native.String.{String}
use Prim.Native.Nat.{◌≤◌}
use mathlib.Core.Path.{◌≡◌, refl, ap, sym, subst}
use mathlib.Core.Logic.{◌↔◌, inl, inr}
use native.Mathlib.Omega.{arith}
use mathlib.Core.Bool.{Bool, true, false, ◌&&◌, ◌||◌}
use mathlib.Core.List.{List, [], ◌∷◌, ◌++◌}
use dexdeck.Common.Tests.{Bool-cases, leb, ◌==◌, if◌then◌else◌}

abbrev pub codes : String → List ℕ
codes String.[] = []
codes (String.◌∷◌ c rest) = code c ∷ codes rest

abbrev pub between : ℕ → ℕ → ℕ → Bool
between low high c = leb low c && leb c high

abbrev pub is_ascii_letter : ℕ → Bool
is_ascii_letter c = between 65 90 c || between 97 122 c

abbrev pub is_ascii_digit : ℕ → Bool
is_ascii_digit c = between 48 57 c

-- `to_ascii_lowercase`, on a code point.
abbrev pub ascii_lower : ℕ → ℕ
ascii_lower c = if between 65 90 c then c + 32 else c

abbrev pub starts_with : List ℕ → List ℕ → Bool
starts_with text [] = true
starts_with [] (_ ∷ _) = false
starts_with (c ∷ text) (d ∷ part) = c == d && starts_with text part

-- `str::contains`.
abbrev pub contains_codes : List ℕ → List ℕ → Bool
contains_codes [] part = starts_with [] part
contains_codes (c ∷ text) part = starts_with (c ∷ text) part || contains_codes text part

pub between_iff : (low high c : ℕ) → (between low high c ≡ true) ↔ ((low ≤ c) × (c ≤ high))
between_iff low high c = (λ e. (ground arith, ground arith), λ h. ground arith)

-- `part` stands in `text`, after `front`.
abbrev pub Within : List ℕ → List ℕ → Type 0
Within part text = (front : List ℕ) × ((back : List ℕ) × (text ≡ front ++ (part ++ back)))

starts_with-split :
    (text part : List ℕ) → starts_with text part ≡ true → (back : List ℕ) × (text ≡ part ++ back)
starts_with-split text [] h = (text, refl)
starts_with-split [] (d ∷ part) h = cc
starts_with-split (c ∷ text) (d ∷ part) h =
    let (back, e) = starts_with-split text part (ground arith) in
    let same : c ≡ d = ground arith in (back, cc)

starts_with-append : (part back : List ℕ) → starts_with (part ++ back) part ≡ true
starts_with-append [] back = refl
starts_with-append (d ∷ part) back = ground (arith, starts_with-append part back)

contains_codes-Within : (text part : List ℕ) → contains_codes text part ≡ true → Within part text
contains_codes-Within [] part h = let (back, e) = starts_with-split [] part h in ([], (back, e))
contains_codes-Within (c ∷ text) part h = elim (Bool-cases (starts_with (c ∷ text) part)) [
  | inl here ↦ let (back, e) = starts_with-split (c ∷ text) part here in ([], (back, e))
  | inr later ↦
      let (front, (back, e)) = contains_codes-Within text part (ground (arith, later)) in
      (c ∷ front, (back, ap (λ (rest : List ℕ). c ∷ rest) e))
]

contains_codes-append :
    (front part back : List ℕ) → contains_codes (front ++ (part ++ back)) part ≡ true
contains_codes-append [] [] [] = refl
contains_codes-append [] [] (b ∷ back) = refl
contains_codes-append [] (d ∷ part) back = ground (arith, starts_with-append (d ∷ part) back)
contains_codes-append (c ∷ front) part back = ground (arith, contains_codes-append front part back)

pub contains_codes_iff : (text part : List ℕ) → (contains_codes text part ≡ true) ↔ Within part text
contains_codes_iff text part = (
  contains_codes-Within text part,
  λ h.
      let (front, (back, e)) = h in
      subst (λ t. contains_codes t part ≡ true) (sym e) (contains_codes-append front part back),
)
