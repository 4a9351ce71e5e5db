-- ===== src/LogFilter/Matches.antt =====
-- `compile` and `matches` together, against the specification.
use Prim.Native.String
use dexdeck.Common.{
  ℕ, ◌≤◌, ◌≡◌, ◌↔◌, ◌⊎◌, inl, inr, refl, arith, subst, String, Option, none, some, Bool, true,
  false, not, ◌&&◌, ◌||◌, Bool-cases, [], if◌then◌else◌, ltb,
}
use dexdeck.Protocol.Log.{
  LogFilterSpec, LogRecord, LogPriority, error, rank, LogTextSearch, plain, regex,
}
use dexdeck.LogFilter.{
  Result, ok, err, is_some_and, contains_text, searchable, CompiledLogFilter, normalize,
  with_searches, compile_search, compile, too_low, excluded, not_included, not_found, matches,
}
use dexdeck.LogFilter.Accepts.{
  Named, NamedBy, contains_iff, some_iff, asked_iff, Severe, is_none-IsCrash,
}

or_iff :
    (a b c : Bool) {P Q R : Type 0}
    → (a ≡ false ↔ P)
    → (b ≡ false ↔ Q)
    → (c ≡ false ↔ R)
    → (a || b || c) ≡ false ↔ (P × Q × R)
or_iff false false false p q r = (λ e. (p.0 refl, q.0 refl, r.0 refl), λ h. refl)
or_iff true b c p q r = (λ e. absurd (ground arith), λ h. absurd (apart (p.1 h.0)))
  where
    apart : true ≡ false → ⊥
    apart e = cc
or_iff false true c p q r = (λ e. absurd (ground arith), λ h. absurd (apart (q.1 h.1)))
  where
    apart : true ≡ false → ⊥
    apart e = cc
or_iff false false true p q r = (λ e. absurd (ground arith), λ h. absurd (apart (r.1 h.2)))
  where
    apart : true ≡ false → ⊥
    apart e = cc

not_or_iff : (b : Bool) → (not b || false) ≡ false ↔ b ≡ true
not_or_iff true = (λ e. refl, λ e. refl)
not_or_iff false = (λ e. absurd (ground arith), λ e. absurd (ground arith))

Result-cases : {E A : Type 0} (r : Result E A) → ((e : E) × (r ≡ err e)) ⊎ ((a : A) × (r ≡ ok a))
Result-cases (err e) = inl (e, refl)
Result-cases (ok a) = inr (a, refl)

ok_unique : {E A : Type 0} (r : Result E A) {a b : A} → r ≡ ok a → r ≡ ok b → b ≡ a
ok_unique r h k = ground arith

chain_iff :
    (a b c d : Bool) {P Q R : Type 0}
    → (a ≡ false ↔ P)
    → (b ≡ false ↔ Q)
    → (c ≡ false ↔ R)
    → (if a
          then false
          else (if b then false else (if c then false else (if d then false else true))))
        ≡ true
      ↔ (P × Q × R × (d ≡ false))
chain_iff a b c d p q r = (
  λ e. (p.0 (ground arith), q.0 (ground arith), r.0 (ground arith), ground arith),
  λ h. ground (arith, p.1 h.0, q.1 h.1, r.1 h.2, h.3),
)

minimum_iff :
    (o : Option LogPriority) (r : LogRecord)
    → is_some_and o (λ minimum. ltb (rank r.priority) (rank minimum)) ≡ false
      ↔ ((p : LogPriority) → o ≡ some p → rank p ≤ rank r.priority)
minimum_iff none r = (λ e p h. absurd (apart p h), λ h. refl)
  where
    apart : (p : LogPriority) → none ≡ some p → ⊥
    apart p h = cc
minimum_iff (some m) r = (
  λ e p h. subst (λ x. rank x ≤ rank r.priority) (unwrap p h) (ground arith),
  λ h. lower (h m refl),
)
  where
    unwrap : (p : LogPriority) → some m ≡ some p → m ≡ p
    unwrap p h = cc

    lower : rank m ≤ rank r.priority → ltb (rank r.priority) (rank m) ≡ false
    lower h = ground arith

asked_crash_iff :
    (asked a b : Bool) {P : Type 0}
    → ((a && b) ≡ false ↔ P)
    → (asked && a && b) ≡ false ↔ (asked ≡ true → P)
asked_crash_iff true a b h = (λ e t. h.0 (ground arith), λ k. ground (arith, h.1 (k refl)))
asked_crash_iff false a b h = (λ e t. absurd (ground arith), λ k. refl)

asked_error_iff :
    (asked : Bool) (m n : ℕ) (a b : Bool) {P : Type 0}
    → ((a && b) ≡ false ↔ P)
    → (asked && ltb m n && a && b) ≡ false ↔ (asked ≡ true → (n ≤ m) ⊎ P)
asked_error_iff false m n a b h = (λ e t. absurd (ground arith), λ k. refl)
asked_error_iff true m n a b {P = P} h = (there (Bool-cases (ltb m n)), λ k. back (k refl))
  where
    there :
        (ltb m n ≡ true) ⊎ (ltb m n ≡ false)
        → (true && ltb m n && a && b) ≡ false
        → true ≡ true
        → (n ≤ m) ⊎ P
    there (inl l) e t = inr (h.0 (ground arith))
    there (inr g) e t = inl (ground arith)

    back : (n ≤ m) ⊎ P → (true && ltb m n && a && b) ≡ false
    back (inl g) = ground arith
    back (inr c) = ground (arith, h.1 c)

not_iff : (b : Bool) {P : Type 0} → (b ≡ true ↔ P) → (b ≡ false ↔ (¬ P))
not_iff true h = (λ e. cc, λ n. absurd (n (h.0 refl)))
not_iff false h = (λ e p. absurd (apart (h.1 p)), λ n. refl)
  where
    apart : false ≡ true → ⊥
    apart e = cc

module _ {Regex E : Type 0} (to_lowercase : String → String)
    (build : String → Bool → Result E Regex) (is_match : Regex → String → Bool)
    (spec : LogFilterSpec) where
  abbrev pub norm : String → String
  norm = normalize to_lowercase build is_match spec

  -- No exclusion names the record.
  abbrev pub NotExcluded : LogRecord → Type 0
  NotExcluded r =
      (¬ Named norm spec.exclude_tags r.tag)
      × (¬ NamedBy norm spec.exclude_packages r.package_name)
      × (¬ NamedBy norm spec.exclude_processes r.process)

  -- Each kind of inclusion that is asked for names the record.
  abbrev pub Included : LogRecord → Type 0
  Included r =
      ((spec.include_tags ≡ []) ⊎ Named norm spec.include_tags r.tag)
      × ((spec.include_packages ≡ []) ⊎ NamedBy norm spec.include_packages r.package_name)
      × ((spec.include_processes ≡ []) ⊎ NamedBy norm spec.include_processes r.process)

  -- The tag, a space and the message.
  abbrev pub tag_and_message : LogRecord → String
  tag_and_message r = String.◌++◌ r.tag (String.◌++◌ " " r.message)

  abbrev pub Found : Option LogTextSearch → LogRecord → Type 0
  Found none r = Unit {0}
  Found (some (plain value)) r = contains_text (norm (tag_and_message r)) (norm value) ≡ true
  Found (some (regex value)) r =
      (re : Regex) × (build value (not spec.case_sensitive) ≡ ok re)
      × (is_match re (tag_and_message r) ≡ true)

  module _ (p : Option String) (q : Option Regex) (r : LogRecord) where
    abbrev filtered : CompiledLogFilter Regex
    filtered = with_searches to_lowercase build is_match spec p q

    too_low_iff : too_low to_lowercase build is_match filtered r ≡ false ↔ Severe spec r
    unfolding too_low
    too_low_iff =
        let w =
          or_iff _ _ _ (minimum_iff spec.minimum_priority r)
            (asked_crash_iff spec.crash_only _ _ (is_none-IsCrash r))
            (asked_error_iff spec.errors (rank r.priority) (rank error) _ _ (is_none-IsCrash r)) in
        (
          λ e. let h = w.0 e in record { minimum = h.0; crash = h.1; errors = h.2 },
          λ v. w.1 (v.minimum, v.crash, v.errors),
        )

    excluded_iff : excluded to_lowercase build is_match filtered r ≡ false ↔ NotExcluded r
    unfolding excluded
    excluded_iff =
        or_iff _ _ _ (not_iff _ (contains_iff norm spec.exclude_tags r.tag))
          (not_iff _ (some_iff norm spec.exclude_packages r.package_name))
          (not_iff _ (some_iff norm spec.exclude_processes r.process))

    not_included_iff : not_included to_lowercase build is_match filtered r ≡ false ↔ Included r
    unfolding not_included
    not_included_iff =
        or_iff _ _ _
          (asked_iff norm spec.include_tags _ (contains_iff norm spec.include_tags r.tag))
          (asked_iff norm spec.include_packages _
            (some_iff norm spec.include_packages r.package_name))
          (asked_iff norm spec.include_processes _ (some_iff norm spec.include_processes r.process))

    matches-parts : matches to_lowercase build is_match filtered r ≡ true ↔ (
        Severe spec r
        × NotExcluded r
        × Included r
        × (not_found to_lowercase build is_match filtered r ≡ false))
    unfolding matches
    matches-parts = chain_iff _ _ _ _ too_low_iff excluded_iff not_included_iff

  Passes-from :
      (r : LogRecord) (p : Option String) (q : Option Regex) {F : Type 0}
      → (not_found to_lowercase build is_match
              (with_searches to_lowercase build is_match spec p q)
              r
            ≡ false
          ↔ F)
      → matches to_lowercase build is_match (with_searches to_lowercase build is_match spec p q) r
          ≡ true
        ↔ (Severe spec r × NotExcluded r × Included r × F)
  Passes-from r p q h =
      let w = matches-parts p q r in
      (λ e. let k = w.0 e in (k.0, k.1, k.2, h.0 k.3), λ k. w.1 (k.0, k.1, k.2, h.1 k.3))

  by_pattern :
      (r : LogRecord) (value : String) (re : Regex)
      → build value (not spec.case_sensitive) ≡ ok re
      → not_found to_lowercase build is_match
            (with_searches to_lowercase build is_match spec none (some re))
            r
          ≡ false
        ↔ Found (some (regex value)) r
  unfolding not_found
  by_pattern r value re b = (
    λ h. (re, b, ground arith),
    λ k.
        let same : is_match re (searchable r) ≡ true =
          subst (λ x. is_match x (searchable r) ≡ true) (ok_unique _ b k.1) k.2 in
        ground (arith, same),
  )

  -- A filter that compiles lets a record through exactly when the record is severe enough, no
  -- exclusion names its tag, package or process, each kind of inclusion that is asked for names it,
  -- and the search, plain or by the pattern, finds its tag and message; names and a plain search
  -- are compared in lower case where case is ignored.
  pub compile-matches :
      (r : LogRecord) {f : CompiledLogFilter Regex}
      → compile to_lowercase build is_match spec ≡ ok f
      → matches to_lowercase build is_match f r ≡ true
        ↔ (Severe spec r × NotExcluded r × Included r × Found spec.text_search r)
  unfolding compile
  compile-matches r {f = f} e = searched spec.text_search e
    where
      searched :
          (o : Option LogTextSearch)
          → compile_search to_lowercase build is_match spec o ≡ ok f
          → matches to_lowercase build is_match f r ≡ true
            ↔ (Severe spec r × NotExcluded r × Included r × Found o r)
      searched none e =
          let same : with_searches to_lowercase build is_match spec none none ≡ f = ground arith in
          subst
            (λ g.
              matches to_lowercase build is_match g r ≡ true
              ↔ (Severe spec r × NotExcluded r × Included r × Found none r))
            same (Passes-from r none none (λ _. tt, λ _. unfold not_found in refl))
      searched (some (plain value)) e =
          let same : with_searches to_lowercase build is_match spec (some (norm value)) none ≡ f =
            ground arith in
          subst
            (λ g.
              matches to_lowercase build is_match g r ≡ true
              ↔ (Severe spec r × NotExcluded r × Included r × Found (some (plain value)) r))
            same (Passes-from r (some (norm value)) none (unfold not_found in not_or_iff _))
      searched (some (regex value)) e =
          elim (Result-cases (build value (not spec.case_sensitive))) [
            | inl (x, b) ↦ absurd (ground (arith, b))
            | inr (re, b) ↦
                let same : with_searches to_lowercase build is_match spec none (some re) ≡ f =
                  ground (arith, b) in
                subst
                  (λ g.
                    matches to_lowercase build is_match g r ≡ true
                    ↔ (Severe spec r × NotExcluded r × Included r × Found (some (regex value)) r))
                  same (Passes-from r none (some re) (by_pattern r value re b))
          ]
