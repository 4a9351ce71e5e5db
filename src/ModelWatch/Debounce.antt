-- ===== src/ModelWatch/Debounce.antt =====
-- A change is refreshed once it has been quiet for the debounce time and Gradle is free.
use dexdeck.Common.{ℕ, ◌+◌, ◌≤◌, ◌<◌, ◌≡◌, refl, arith, ◌⊎◌, some, Bool, true, false, List, [], ◌∷◌}
use dexdeck.ModelWatch.{idle, refresh, ModelWatchState, mark_changed, poll}

-- A poll that finds the change too young, or Gradle busy.
abbrev pub Waits : ℕ → ℕ → ℕ × Bool → Type 0
Waits debounce at (now, busy) = (now < at + debounce) ⊎ (busy ≡ true)

abbrev pub AllWait : ℕ → ℕ → List (ℕ × Bool) → Type 0
AllWait debounce at [] = Unit {0}
AllWait debounce at (p ∷ ps) = Waits debounce at p × AllWait debounce at ps

unfoldable pub polls : List (ℕ × Bool) → ModelWatchState → ModelWatchState
polls [] s = s
polls ((now, busy) ∷ ps) s = polls ps (poll now busy s).0

kept :
    (at : ℕ) (ps : List (ℕ × Bool)) (s : ModelWatchState)
    → s.changed_at ≡ some at
    → 0 < s.debounce
    → AllWait s.debounce at ps
    → polls ps s ≡ s
unfolding polls poll
kept at [] s e pos w = refl
kept at ((now, busy) ∷ ps) s e pos w = ground (arith, kept at ps s e pos w.1)

-- A change is not lost, whatever polls come too early or meet a busy Gradle: the first poll after
-- the debounce time that finds Gradle free asks for one refresh, and the next poll is idle.
pub polls_refresh :
    (s : ModelWatchState) (at : ℕ) (ps : List (ℕ × Bool)) (now later : ℕ) (busy : Bool)
    → 0 < s.debounce
    → AllWait s.debounce at ps
    → at + s.debounce ≤ now
    → let waiting = polls ps (mark_changed at s).0 in
      ((poll now false waiting).1 ≡ refresh)
      × ((poll later busy (poll now false waiting).0).1 ≡ idle)
unfolding poll mark_changed
polls_refresh s at ps now later busy pos w h =
    rw (kept at ps (record s { changed_at = some at }) refl pos w) (ground arith, ground arith)
