-- ===== src/LogFilter.antt =====
-- crates/dexdeck-core/src/log_filter.rs: filters that are compiled once and asked for each record,
-- and the index that is rebuilt in the background. Arguments: the `regex` crate (`build` takes the
-- pattern and whether it ignores case, `is_match`), and the Unicode tables of `str::to_lowercase`.
-- A `HashSet` is the list of its values.
pub mod Accepts
pub mod Matches
pub mod Index
use Prim.Native.String
use Prim.Native.String.{len}
use dexdeck.Common.{
  ℕ, String, String-discrete, Option, none, some, Bool, true, false, not, ◌&&◌, ◌||◌, List, [], ◌∷◌,
  map, if◌then◌else◌, ltb, leb, contains,
}
use dexdeck.Protocol.Log.{
  LogFilterSpec, LogRecord, LogPriority, error, rank, LogTextSearch, plain, regex, LogMarkerKind,
}

pub data Result (E A : Type 0) : Type 0 where
  ok : A → Result E A
  err : E → Result E A

abbrev pub is_some_and {ℓ} : {A : Type ℓ} → Option A → (A → Bool) → Bool
is_some_and none p = false
is_some_and (some a) p = p a

abbrev pub is_none {ℓ} : {A : Type ℓ} → Option A → Bool
is_none none = true
is_none (some _) = false

abbrev pub is_empty {ℓ} : {A : Type ℓ} → List A → Bool
is_empty [] = true
is_empty (_ ∷ _) = false

-- `str::contains`: `find` returns a place past the end of a text in which it finds nothing.
abbrev pub contains_text : String → String → Bool
contains_text text part = leb (String.find text part) (len text)

abbrev pub searchable : LogRecord → String
searchable r = String.◌++◌ r.tag (String.◌++◌ " " r.message)

module _ (Regex : Type 0) where
  pub record CompiledLogFilter : Type 0 where
    pub spec : LogFilterSpec
    pub include_tags : List String
    pub exclude_tags : List String
    pub include_packages : List String
    pub exclude_packages : List String
    pub include_processes : List String
    pub exclude_processes : List String
    pub plain_search : Option String
    pub regex_search : Option Regex

module _ {Regex E : Type 0} (to_lowercase : String → String)
    (build : String → Bool → Result E Regex) (is_match : Regex → String → Bool) where
  -- The closure `normalize`.
  abbrev pub normalize : LogFilterSpec → String → String
  normalize spec value = if spec.case_sensitive then value else to_lowercase value

  abbrev pub with_searches : LogFilterSpec → Option String → Option Regex → CompiledLogFilter Regex
  with_searches spec plain_search regex_search = record {
    spec = spec;
    include_tags = map (normalize spec) spec.include_tags;
    exclude_tags = map (normalize spec) spec.exclude_tags;
    include_packages = map (normalize spec) spec.include_packages;
    exclude_packages = map (normalize spec) spec.exclude_packages;
    include_processes = map (normalize spec) spec.include_processes;
    exclude_processes = map (normalize spec) spec.exclude_processes;
    plain_search = plain_search;
    regex_search = regex_search;
  }

  abbrev pub with_regex : LogFilterSpec → Result E Regex → Result E (CompiledLogFilter Regex)
  with_regex spec (err e) = err e
  with_regex spec (ok r) = ok (with_searches spec none (some r))

  abbrev pub compile_search :
      LogFilterSpec → Option LogTextSearch → Result E (CompiledLogFilter Regex)
  compile_search spec none = ok (with_searches spec none none)
  compile_search spec (some (plain value)) =
      ok (with_searches spec (some (normalize spec value)) none)
  compile_search spec (some (regex value)) = with_regex spec (build value (not spec.case_sensitive))

  unfoldable pub compile : LogFilterSpec → Result E (CompiledLogFilter Regex)
  compile spec = compile_search spec spec.text_search

  -- The four tests of `matches` that return `false`.
  unfoldable pub too_low : CompiledLogFilter Regex → LogRecord → Bool
  too_low f r =
      is_some_and f.spec.minimum_priority (λ minimum. ltb (rank r.priority) (rank minimum))
      || (f.spec.crash_only && not r.crash_boundary && is_none r.marker)
      || (f.spec.errors
          && ltb (rank r.priority) (rank error)
          && not r.crash_boundary
          && is_none r.marker)

  unfoldable pub excluded : CompiledLogFilter Regex → LogRecord → Bool
  excluded f r =
      contains String-discrete (normalize f.spec r.tag) f.exclude_tags
      || is_some_and r.package_name
          (λ v. contains String-discrete (normalize f.spec v) f.exclude_packages)
      || is_some_and r.process
          (λ v. contains String-discrete (normalize f.spec v) f.exclude_processes)

  unfoldable pub not_included : CompiledLogFilter Regex → LogRecord → Bool
  not_included f r =
      (not (is_empty f.include_tags)
        && not (contains String-discrete (normalize f.spec r.tag) f.include_tags))
      || (not (is_empty f.include_packages)
          && not (
              is_some_and r.package_name
                (λ v. contains String-discrete (normalize f.spec v) f.include_packages)))
      || (not (is_empty f.include_processes)
          && not (
              is_some_and r.process
                (λ v. contains String-discrete (normalize f.spec v) f.include_processes)))

  unfoldable pub not_found : CompiledLogFilter Regex → LogRecord → Bool
  not_found f r =
      is_some_and f.plain_search
        (λ plain. not (contains_text (normalize f.spec (searchable r)) plain))
      || is_some_and f.regex_search (λ regex. not (is_match regex (searchable r)))

  unfoldable pub matches : CompiledLogFilter Regex → LogRecord → Bool
  unfolding too_low excluded not_included not_found
  matches f r =
      if too_low f r
      then false
      else (if excluded f r
          then false
          else (if not_included f r then false else (if not_found f r then false else true)))
