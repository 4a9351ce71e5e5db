-- ===== src/TestHistory/Plans.antt =====
-- What a plan of `TestRunHistory` may hold.
use dexdeck.Common.Bounded.{push_bounded, length-push_bounded}
use mathlib.Core.List.{Memᴰ}
use dexdeck.Common.{
  find-Memᴰ, find-any, ◌≤◌, String, String-discrete, Option, none, some, true, false, ◌≡◌, ◌≢◌,
  refl, arith, sym, ap, subst, ◌↔◌, ◌⊎◌, inl, inr, Bool-cases, not, ◌&&◌, Option-cases, List, [],
  ◌∷◌, ◌++◌, map, length, drop, find, any, retain, ◌==◌, last?, decide, if◌then◌else◌,
}
use dexdeck.Protocol.Job.{JobId}
use dexdeck.Protocol.TestResult.{
  TestSelection, TestOutcome, passed, failed, skipped, TestCaseResult,
}
use dexdeck.TestHistory.{
  RecordedTestRun, TestRerunKind, all_tests, failed_tests, selected, TestRerunPlan, TestRunHistory,
  TestRerunError, Result, ok, err, record_run, latest, is_failed, is_some, none_or_equal, run_of,
  failure_selection, failed_selections, selects, selections_of, plan, test_run_history_limit,
}

-- A selection leaves a part of a name open, or gives it.
abbrev pub OpenOr : Option String → String → Type 0
OpenOr part name = (part ≡ none) ⊎ (part ≡ some name)

-- One of the cases is meant by a selection.
abbrev pub NamesOneOf : List TestCaseResult → TestSelection → Type 0
NamesOneOf cases s =
    (c : TestCaseResult) × Memᴰ c cases × OpenOr s.class_name c.class_name × OpenOr s.method c.name

-- The selection of one case, by itself.
pub record Selects (run : RecordedTestRun) (c : TestCaseResult) (s : TestSelection) : Type 0 where
  pub same_module : s.module_name ≡ run.result.selection.module_name
  pub any_package : s.package_name ≡ none
  pub its_class : s.class_name ≡ some c.class_name
  pub its_method : s.method ≡ some c.name

-- The selections are those of the failed cases, in their order, and of no other case.
pub data Reruns (run : RecordedTestRun) : List TestCaseResult → List TestSelection → Type 0 where
  done : Reruns run [] []
  again :
      {c : TestCaseResult} {cases : List TestCaseResult} {s : TestSelection}
      {selections : List TestSelection}
      → c.outcome ≡ failed
      → Selects run c s
      → Reruns run cases selections
      → Reruns run (c ∷ cases) (s ∷ selections)
  left_out :
      {c : TestCaseResult} {cases : List TestCaseResult} {selections : List TestSelection}
      → c.outcome ≢ failed
      → Reruns run cases selections
      → Reruns run (c ∷ cases) selections

last-append {ℓ} : {A : Type ℓ} (xs : List A) (x : A) → last? (xs ++ x ∷ []) ≡ some x
last-append [] x = refl
last-append (y ∷ []) x = refl
last-append (y ∷ z ∷ xs) x = last-append (z ∷ xs) x

-- A run recorded in a history of at most fifty is the latest one, and at most fifty are kept.
latest-record_run :
    (run : RecordedTestRun) (h : TestRunHistory)
    → length h.runs ≤ test_run_history_limit
    → (latest (record_run run h) ≡ some run)
      × (length (record_run run h).runs ≤ test_run_history_limit)
unfolding record_run push_bounded
latest-record_run run h fits = (
  last-append (if length h.runs == test_run_history_limit then drop 1 h.runs else h.runs) run,
  length-push_bounded test_run_history_limit h.runs run (omega arith) fits,
)

is_failed_iff : (outcome : TestOutcome) → (is_failed outcome ≡ true) ↔ (outcome ≡ failed)
is_failed_iff passed = (λ e. cc, λ e. cc)
is_failed_iff failed = (λ e. refl, λ e. refl)
is_failed_iff skipped = (λ e. cc, λ e. cc)

failures-Reruns :
    (run : RecordedTestRun) (cases : List TestCaseResult)
    → Reruns run cases (map (failure_selection run) (retain (λ c. is_failed c.outcome) cases))
failures-Reruns run [] = Reruns.done
failures-Reruns run (c ∷ cases) = elim (Bool-cases (is_failed c.outcome)) [
  | inl yes_failed ↦ rw yes_failed (
      Reruns.again ((is_failed_iff c.outcome).0 yes_failed)
        (record { same_module = refl; any_package = refl; its_class = refl; its_method = refl })
        (failures-Reruns run cases))
  | inr other ↦ rw other (
      Reruns.left_out (λ e. let t = (is_failed_iff c.outcome).1 e in ground (arith, t, other))
        (failures-Reruns run cases))
]

none_or_equal-OpenOr :
    (part : Option String) (name : String) → none_or_equal part name ≡ true → OpenOr part name
unfolding decide
none_or_equal-OpenOr none name h = inl refl
none_or_equal-OpenOr (some text) name h = elim (String-discrete text name) [
  | yes e ↦ inr (ap some e)
  | no n ↦ absurd (ground arith)
]

selects-NamesOneOf :
    (cases : List TestCaseResult) (s : TestSelection)
    → any (selects s) cases ≡ true
    → NamesOneOf cases s
selects-NamesOneOf cases s h =
    let (c, found) = find-any (selects s) cases h in
    let (member, t) = find-Memᴰ (selects s) cases found in
    (
      c,
      member,
      none_or_equal-OpenOr s.class_name c.class_name (ground arith),
      none_or_equal-OpenOr s.method c.name (ground arith),
    )

ok-cases {ℓ} :
    {A : Type ℓ} (r : Result A) → ((a : A) × (r ≡ ok a)) ⊎ ((x : TestRerunError) × (r ≡ err x))
ok-cases (ok a) = inl (a, refl)
ok-cases (err x) = inr (x, refl)

last-Memᴰ {ℓ} : {A : Type ℓ} (xs : List A) {x : A} → last? xs ≡ some x → Memᴰ x xs
last-Memᴰ [] h = cc
last-Memᴰ (y ∷ []) h = Memᴰ.head (ground arith)
last-Memᴰ (y ∷ z ∷ xs) h = Memᴰ.tail (last-Memᴰ (z ∷ xs) h)

-- The run that a request means.
abbrev pub Meant : Option JobId → TestRunHistory → RecordedTestRun → Type 0
Meant none h run = latest h ≡ some run
Meant (some id) h run = run.job_id ≡ id

run_of-Meant :
    (job_id : Option JobId) (h : TestRunHistory) {run : RecordedTestRun}
    → run_of job_id h ≡ ok run
    → Memᴰ run h.runs × Meant job_id h run
unfolding run_of decide
run_of-Meant none h {run} e = elim (Option-cases (latest h)) [
  | inl n ↦ absurd (ground (arith, n))
  | inr (r, l) ↦ let l' : latest h ≡ some run = ground (arith, l) in (last-Memᴰ h.runs l', l')
]
run_of-Meant (some id) h {run} e =
    elim (Option-cases (find (λ r. decide (String-discrete r.job_id id)) h.runs)) [
      | inl n ↦ absurd (ground (arith, n))
      | inr (r, l) ↦
          let l' : find (λ r. decide (String-discrete r.job_id id)) h.runs ≡ some run =
            ground (arith, l) in
          let (m, t) = find-Memᴰ (λ r. decide (String-discrete r.job_id id)) h.runs l' in
          (m, ground (arith, t))
    ]

-- What the selections of a plan are, for what was asked.
abbrev pub Covers : TestRerunKind → RecordedTestRun → List TestSelection → Type 0
Covers all_tests run ss = ss ≡ run.result.selection ∷ []
Covers failed_tests run ss =
    Reruns run run.result.cases ss × (ss ≢ []) × (run.arbitrary_task ≡ false)
Covers (selected s) run ss =
    (ss ≡ s ∷ []) × NamesOneOf run.result.cases s × ((s.method ≡ none) ⊎ (s.class_name ≢ none))

with_class :
    (method class_name : Option String)
    → not (is_some method && not (is_some class_name)) ≡ true
    → (method ≡ none) ⊎ (class_name ≢ none)
with_class none class_name h = inl refl
with_class (some m) none h = cc
with_class (some m) (some c) h = inr (λ e. cc)

selections_of-Covers :
    (run : RecordedTestRun) (kind : TestRerunKind) {ss : List TestSelection}
    → selections_of run kind ≡ ok ss
    → Covers kind run ss
unfolding selections_of
selections_of-Covers run all_tests e = ground arith
selections_of-Covers run failed_tests {ss} e =
    let same : ss ≡ failed_selections run = ground arith in
    (
      subst (Reruns run run.result.cases) (sym same) (failures-Reruns run run.result.cases),
      (λ z. ground arith),
      ground arith,
    )
selections_of-Covers run (selected s) {ss} e = (
  ground arith,
  selects-NamesOneOf run.result.cases s (ground arith),
  with_class s.method s.class_name (ground arith),
)

-- A plan that is given out is for a run of the history: the one that was asked for, or the latest.
-- It has this run's job and task, and its selections are the run's own; or, of a run that was no
-- arbitrary task, one for each failed case in the order of the cases, by its module, class and
-- method, and at least one; or the one selection that was asked for, which means a case of the run
-- and has a class if it has a method.
pub plan_sound :
    (job_id : Option JobId) (kind : TestRerunKind) (h : TestRunHistory) {p : TestRerunPlan}
    → plan job_id kind h ≡ ok p
    → (run : RecordedTestRun) × Memᴰ run h.runs
      × Meant job_id h run
      × (p.source_job_id ≡ run.job_id)
      × (p.task ≡ run.task)
      × Covers kind run p.selections
unfolding plan
plan_sound job_id kind h {p} e = elim (ok-cases (run_of job_id h)) [
  | inr (x, n) ↦ absurd (ground (arith, n))
  | inl (run, r) ↦
      let (m, meant) = run_of-Meant job_id h r in
      elim (ok-cases (selections_of run kind)) [
        | inr (x, n) ↦ absurd (ground (arith, n, r))
        | inl (ss, o) ↦ (
          run,
          m,
          meant,
          ground (arith, o, r),
          ground (arith, o, r),
          subst (Covers kind run) (ground (arith, o, r)) (selections_of-Covers run kind o),
        )
      ]
]
