-- ===== src/Tests/Filters.antt =====
-- Filters with patterns that stand for themselves.
use dexdeck.Common.{
  ℕ, ◌≡◌, ◌↔◌, ◌≢◌, refl, arith, String, none, some, Bool, true, false, [], ◌∷◌, lookup, ℕ_discrete,
}
use dexdeck.Protocol.Log.{LogFilterSpec, regex}
use dexdeck.LogFilter.{
  Result, ok, CompiledLogFilter, compile, with_searches, matches, contains_text,
}
use dexdeck.LogFilter.Accepts.{Severe}
use dexdeck.LogFilter.Matches.{NotExcluded, Included, Found, compile-matches}
use dexdeck.LogFilter.Index.{
  LogFilterIndex, LogFilterSnapshot, checking, writing, requests, checks, writes, run, rebuilt,
}
use dexdeck.LogFilter.Index.Publication.{newest_published}
use dexdeck.LogFilter.Index.Race.{stale_published}
use dexdeck.Tests.Fixtures.{log_record}

abbrev lower : String → String
lower s = s

abbrev build : String → Bool → Result String String
build pattern _ = ok pattern

abbrev is_match : String → String → Bool
is_match pattern text = contains_text text pattern

abbrev message : String → String
message s = s

abbrev spec : LogFilterSpec
spec = record {
  minimum_priority = none;
  include_tags = "App" ∷ [];
  exclude_tags = [];
  include_packages = [];
  exclude_packages = [];
  include_processes = [];
  exclude_processes = [];
  text_search = some (regex "one");
  case_sensitive = true;
  crash_only = false;
  errors = false;
}

abbrev filter : CompiledLogFilter String
filter = with_searches lower build is_match spec none (some "one")

compile-matches_example : matches lower build is_match filter (log_record "one") ≡ true ↔ (
    Severe spec (log_record "one")
    × NotExcluded lower build is_match spec (log_record "one")
    × Included lower build is_match spec (log_record "one")
    × Found lower build is_match spec (some (regex "one")) (log_record "one"))
compile-matches_example =
    compile-matches lower build is_match spec (log_record "one") (unfold compile in refl)

abbrev snapshot : ℕ → LogFilterSnapshot
snapshot g = record { generation = g; sequences = []; error = none }

-- The second rebuild is the newest, and both are under way.
abbrev two_rebuilds : LogFilterIndex
two_rebuilds = record {
  requested_generation = 2;
  snapshot = snapshot 0;
  rebuilds = (1, checking (snapshot 1)) ∷ (2, checking (snapshot 2)) ∷ [];
}

none_writes :
    (k : ℕ) (t : LogFilterSnapshot) → lookup ℕ_discrete k two_rebuilds.rebuilds ≢ some (writing t)
unfolding lookup
none_writes k t h = elim (ℕ_discrete 1 k) [
  | yes e ↦ ground arith
  | no n ↦ elim (ℕ_discrete 2 k) [ yes e ↦ ground arith | no m ↦ ground arith ]
]

newest_published_example :
    (run lower build is_match message two_rebuilds
      (checks 2 ∷ writes 2 ∷ checks 1 ∷ writes 1 ∷ [])).snapshot
    ≡ snapshot 2
newest_published_example =
    newest_published lower build is_match message two_rebuilds (snapshot 2)
      (checks 1 ∷ writes 1 ∷ []) (unfold lookup ℕ_discrete in refl) none_writes refl

abbrev idle : LogFilterIndex
idle = record { requested_generation = 0; snapshot = snapshot 0; rebuilds = [] }

stale_published_example :
    run lower build is_match message idle
      (requests [] spec ∷ checks 1 ∷ requests [] spec ∷ checks 2 ∷ writes 2 ∷ writes 1 ∷ [])
    ≡ record {
      requested_generation = 2;
      snapshot = rebuilt lower build is_match message 1 [] spec;
      rebuilds = [];
    }
stale_published_example =
    stale_published lower build is_match message idle [] [] spec spec refl (omega arith)
