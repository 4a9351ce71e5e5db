-- ===== src/LogFilter/Accepts.antt =====
-- What a compiled filter lets through, told from the specification it was compiled from.
use mathlib.Core.List.{Memᴰ}
use dexdeck.Common.{
  ◌≤◌, ◌≡◌, ◌≢◌, ◌↔◌, ◌⊎◌, inl, inr, refl, arith, sym, ap, ◌∙◌, String, String-discrete, Option,
  none, some, Bool, true, false, not, ◌&&◌, Bool-cases, Option-cases, List, [], ◌∷◌, map, contains,
  decide,
}
use dexdeck.Protocol.Log.{LogFilterSpec, LogRecord, LogPriority, error, rank}
use dexdeck.LogFilter.{is_some_and, is_none, is_empty}

-- A listed name is the value, up to case if case is ignored.
abbrev pub Named : (String → String) → List String → String → Type 0
Named norm names value = (name : String) × Memᴰ name names × (norm name ≡ norm value)

-- An optional value that is there, and is named.
abbrev pub NamedBy : (String → String) → List String → Option String → Type 0
NamedBy norm names o = (value : String) × (o ≡ some value) × Named norm names value

module _ (norm : String → String) where
  contains-Named :
      (names : List String) (value : String)
      → contains String-discrete (norm value) (map norm names) ≡ true
      → Named norm names value
  unfolding contains decide
  contains-Named [] value h = cc
  contains-Named (n ∷ names) value h = elim (String-discrete (norm n) (norm value)) [
    | yes e ↦ (n, Memᴰ.head refl, e)
    | no m ↦
        let (name, member, e) = contains-Named names value (ground (arith, m)) in
        (name, Memᴰ.tail member, e)
  ]

  Named-contains :
      (names : List String) (value name : String)
      → Memᴰ name names
      → norm name ≡ norm value
      → contains String-discrete (norm value) (map norm names) ≡ true
  unfolding contains decide
  Named-contains [] value name m q = elim m [ ]
  Named-contains (n ∷ names) value name (Memᴰ.head e) q =
      let q' : norm n ≡ norm value = ap norm (sym e) ∙ q in
      elim (String-discrete (norm n) (norm value)) [ yes a ↦ ground arith | no m ↦ absurd (m q') ]
  Named-contains (n ∷ names) value name (Memᴰ.tail m) q =
      ground (arith, Named-contains names value name m q)

  -- The tests on a value, and on one that may be absent.
  pub contains_iff :
      (names : List String) (value : String)
      → contains String-discrete (norm value) (map norm names) ≡ true ↔ Named norm names value
  contains_iff names value =
      (contains-Named names value, λ h. Named-contains names value h.0 h.1 h.2)

  pub some_iff :
      (names : List String) (o : Option String)
      → is_some_and o (λ v. contains String-discrete (norm v) (map norm names)) ≡ true
        ↔ NamedBy norm names o
  some_iff names none = (λ h. cc, λ h. cc)
  some_iff names (some v) = (
    λ h. (v, refl, contains-Named names v h),
    λ h. let (w, e, n) = h in Named-contains names v n.0 n.1 (n.2 ∙ ap norm (unwrap w e)),
  )
    where
      unwrap : (w : String) → some v ≡ some w → w ≡ v
      unwrap w e = cc

-- Nothing is asked for, or the test holds.
pub asked_iff :
    (norm : String → String) (names : List String) (b : Bool) {P : Type 0}
    → (b ≡ true ↔ P)
    → (not (is_empty (map norm names)) && not b) ≡ false ↔ ((names ≡ []) ⊎ P)
asked_iff norm [] b h = (λ e. inl refl, λ e. refl)
asked_iff norm (n ∷ names) b {P = P} h = (λ e. inr (h.0 (ground arith)), back)
  where
    back : ((n ∷ names ≡ []) ⊎ P) → (true && not b) ≡ false
    back (inl e) = cc
    back (inr p) = ground (arith, h.1 p)

abbrev pub IsCrash : LogRecord → Type 0
IsCrash r = (r.crash_boundary ≡ true) ⊎ (r.marker ≢ none)

-- The record is severe enough, or part of a crash where that is asked for.
pub record Severe (spec : LogFilterSpec) (r : LogRecord) : Type 0 where
  pub minimum : (p : LogPriority) → spec.minimum_priority ≡ some p → rank p ≤ rank r.priority
  pub crash : spec.crash_only ≡ true → IsCrash r
  pub errors : spec.errors ≡ true → (rank error ≤ rank r.priority) ⊎ IsCrash r

pub is_none-IsCrash :
    (r : LogRecord) → (not r.crash_boundary && is_none r.marker) ≡ false ↔ IsCrash r
is_none-IsCrash r = (there (Bool-cases r.crash_boundary) (Option-cases r.marker), back)
  where
    there :
        (r.crash_boundary ≡ true) ⊎ (r.crash_boundary ≡ false)
        → (r.marker ≡ none) ⊎ ((m : _) × (r.marker ≡ some m))
        → (not r.crash_boundary && is_none r.marker) ≡ false
        → IsCrash r
    there (inl t) m h = inl t
    there (inr f) (inr (m, e)) h = inr (λ n. cc)
    there (inr f) (inl n) h = absurd (ground arith)

    back : IsCrash r → (not r.crash_boundary && is_none r.marker) ≡ false
    back (inl t) = ground arith
    back (inr n) = elim (Option-cases r.marker) [ inl e ↦ absurd (n e) | inr (m, e) ↦ ground arith ]
