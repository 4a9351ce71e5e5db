-- ===== src/Jobs/Invariant/Submit.antt =====
-- `submit` keeps the invariant.
use dexdeck.Common.{
  String, String-discrete, Option, none, some, true, false, ◌≡◌, ◌≢◌, refl, arith, sym, ◌∙◌, subst,
  ap, lookup, insert, lookup-insert, ◌⊎◌, inl, inr, contains, contains-append, decide, List, [],
  ◌∷◌, ◌++◌,
}
use dexdeck.Protocol.Job.{JobId}
use dexdeck.Jobs.Scheduler.{Job, JobScheduler, is_terminal, is_blocked, hold_root}
use dexdeck.Jobs.Steps.{At}
use dexdeck.Jobs.Invariant.Promote.{insert_kept, insert_self, inserted}
use dexdeck.Jobs.Invariant.{Waits, NeedsRoot, RootInUse, Inv}

contains_appended :
    (a b : String) (l : List String)
    → contains String-discrete b (l ++ a ∷ []) ≡ true
    → (a ≡ b) ⊎ (contains String-discrete b l ≡ true)
unfolding decide
contains_appended a b l h = elim (String-discrete a b) [
  | yes e ↦ inl e
  | no n ↦ inr (ground (arith, contains-append String-discrete a b l))
]

append_self : (a : String) (l : List String) → contains String-discrete a (l ++ a ∷ []) ≡ true
unfolding decide
append_self a l = elim (String-discrete a a) [
  | yes e ↦ ground (arith, contains-append String-discrete a a l)
  | no n ↦ absurd (n refl)
]

append_kept :
    (a b : String) (l : List String)
    → contains String-discrete b l ≡ true
    → contains String-discrete b (l ++ a ∷ []) ≡ true
unfolding decide
append_kept a b l h = ground (arith, contains-append String-discrete a b l)

held_old :
    (o : Option String) (roots : List String) (r : String)
    → contains String-discrete r roots ≡ true
    → contains String-discrete r (hold_root o roots) ≡ true
held_old none roots r h = h
held_old (some root) roots r h = insert_kept root r roots h

held_cases :
    (o : Option String) (roots : List String) (r : String)
    → contains String-discrete r (hold_root o roots) ≡ true
    → (o ≡ some r) ⊎ (contains String-discrete r roots ≡ true)
held_cases none roots r h = inr h
held_cases (some root) roots r h = elim (inserted root r roots h) [
  | inl e ↦ inl (ap some e)
  | inr u ↦ inr u
]

blocked_clash :
    (o : Option String) (r : String) (roots : List String)
    → o ≡ some r
    → is_blocked o roots ≡ false
    → ¬ (contains String-discrete r roots ≡ true)
blocked_clash o r roots e idle u = ground arith

module _ (id : JobId) (j : Job) {s : JobScheduler} (v : Inv s)
    (absent : lookup String-discrete id s.jobs ≡ none) where
  -- The table with the new job, and any queue, roots and history.
  abbrev pub with_job : JobScheduler → JobScheduler
  with_job t = record t { jobs = insert String-discrete id j s.jobs }

  with_job-At :
      (t : JobScheduler) (i : JobId) (b : Job)
      → At i (with_job t) b
      → ((i ≡ id) × (b ≡ j)) ⊎ ((i ≢ id) × At i s b)
  with_job-At t i b h = elim (String-discrete id i) [
    | yes e ↦ inl (sym e, ground (arith, lookup-insert String-discrete id i j s.jobs))
    | no m ↦ inr (λ e. m (sym e), ground (arith, lookup-insert String-discrete id i j s.jobs))
  ]

  At-with_job : (t : JobScheduler) (i : JobId) (a : Job) → At i s a → At i (with_job t) a
  At-with_job t i a h = elim (String-discrete id i) [
    | yes e ↦ absurd (ground (arith, subst (λ k. lookup String-discrete k s.jobs ≡ none) e absent))
    | no k ↦ ground (arith, lookup-insert String-discrete id i j s.jobs)
  ]

  At-new : (t : JobScheduler) → At id (with_job t) j
  At-new t = elim (String-discrete id id) [
    | yes e ↦ ground (arith, lookup-insert String-discrete id id j s.jobs)
    | no k ↦ absurd (k refl)
  ]

  -- The root is in use: the job waits for it.
  pub enqueue-Inv :
      (root : String)
      → Waits j
      → NeedsRoot j root
      → RootInUse root s
      → is_terminal j.job_record.state ≡ false
      → Inv (with_job (record s { queue = s.queue ++ id ∷ [] }))
  enqueue-Inv root wj nj used live =
      let t = record s { queue = s.queue ++ id ∷ [] } in
      record {
        unfinished = λ i b h. elim (with_job-At t i b h) [
          | inl (_, e) ↦ subst (λ k. is_terminal k.job_record.state ≡ false) (sym e) live
          | inr (_, h') ↦ v.unfinished i b h'
        ];
        exclusive = λ i k a b r ha hb na nb wa wb.
            v.exclusive i k a b r (old i a ha wa) (old k b hb wb) na nb wa wb;
        in_use = λ i a r h na wa. v.in_use i a r (old i a h wa) na wa;
        owned = λ r u. let (i, a, ha, na, wa) = v.owned r u in (i, a, At-with_job t i a ha, na, wa);
        waiting_listed = λ i a h wa. elim (with_job-At t i a h) [
          | inl (e, _) ↦ listed_new i e
          | inr (_, h') ↦ listed_old i (v.waiting_listed i a h' wa)
        ];
        listed_waiting = λ i l. elim (listed_cases i l) [
          | inl e ↦ (j, root, subst (λ k. At k (with_job t) j) e (At-new t), wj, nj, used)
          | inr l' ↦
              let (a, r, ha, wa, na, u) = v.listed_waiting i l' in
              (a, r, At-with_job t i a ha, wa, na, u)
        ];
        capacity_pos = v.capacity_pos;
      }
    where
      old :
          (i : JobId) (a : Job)
          → At i (with_job (record s { queue = s.queue ++ id ∷ [] })) a
          → ¬ Waits a
          → At i s a
      old i a h wa = elim (with_job-At (record s { queue = s.queue ++ id ∷ [] }) i a h) [
        | inl (_, e) ↦ absurd (wa (subst Waits (sym e) wj))
        | inr (_, h') ↦ h'
      ]

      listed_cases :
          (i : JobId)
          → contains String-discrete i (s.queue ++ id ∷ []) ≡ true
          → (id ≡ i) ⊎ (contains String-discrete i s.queue ≡ true)
      listed_cases i l = contains_appended id i s.queue l

      listed_new : (i : JobId) → i ≡ id → contains String-discrete i (s.queue ++ id ∷ []) ≡ true
      listed_new i e =
          subst (λ k. contains String-discrete k (s.queue ++ id ∷ []) ≡ true) (sym e)
            (append_self id s.queue)

      listed_old :
          (i : JobId)
          → contains String-discrete i s.queue ≡ true
          → contains String-discrete i (s.queue ++ id ∷ []) ≡ true
      listed_old i l = append_kept id i s.queue l

  -- The root, if any, is free: the job starts.
  pub start-Inv :
      ¬ Waits j
      → is_terminal j.job_record.state ≡ false
      → is_blocked j.mutating_gradle_root s.active_gradle_roots ≡ false
      → Inv (
          with_job (record s {
            active_gradle_roots = hold_root j.mutating_gradle_root s.active_gradle_roots;
          }))
  start-Inv wj live idle =
      let t = record s {
        active_gradle_roots = hold_root j.mutating_gradle_root s.active_gradle_roots;
      } in
      record {
        unfinished = λ i b h. elim (with_job-At t i b h) [
          | inl (_, e) ↦ subst (λ k. is_terminal k.job_record.state ≡ false) (sym e) live
          | inr (_, h') ↦ v.unfinished i b h'
        ];
        exclusive = λ i k a b r ha hb na nb wa wb. elim (with_job-At t i a ha) [
          | inl (ei, ea) ↦ elim (with_job-At t k b hb) [
            | inl (ek, _) ↦ ei ∙ sym ek
            | inr (_, hb') ↦ absurd (clash r a ea na (v.in_use k b r hb' nb wb))
          ]
          | inr (_, ha') ↦ elim (with_job-At t k b hb) [
            | inl (_, eb) ↦ absurd (clash r b eb nb (v.in_use i a r ha' na wa))
            | inr (_, hb') ↦ v.exclusive i k a b r ha' hb' na nb wa wb
          ]
        ];
        in_use = λ i a r h na wa. elim (with_job-At t i a h) [
          | inl (_, e) ↦ held_new s.active_gradle_roots r (subst (λ k. NeedsRoot k r) e na)
          | inr (_, h') ↦
              held_old j.mutating_gradle_root s.active_gradle_roots r (v.in_use i a r h' na wa)
        ];
        owned = λ r u. elim (held_cases j.mutating_gradle_root s.active_gradle_roots r u) [
          | inl e ↦ (id, j, At-new t, e, wj)
          | inr u' ↦ let (i, a, ha, na, wa) = v.owned r u' in (i, a, At-with_job t i a ha, na, wa)
        ];
        waiting_listed = λ i a h wa. elim (with_job-At t i a h) [
          | inl (_, e) ↦ absurd (wj (subst Waits e wa))
          | inr (_, h') ↦ v.waiting_listed i a h' wa
        ];
        listed_waiting = λ i l.
            let (a, r, ha, wa, na, u) = v.listed_waiting i l in
            (
              a,
              r,
              At-with_job t i a ha,
              wa,
              na,
              held_old j.mutating_gradle_root s.active_gradle_roots r u,
            );
        capacity_pos = v.capacity_pos;
      }
    where
      held_new :
          (roots : List String) (r : String)
          → NeedsRoot j r
          → contains String-discrete r (hold_root j.mutating_gradle_root roots) ≡ true
      held_new roots r n = rw n (insert_self r roots)

      clash : (r : String) (a : Job) → a ≡ j → NeedsRoot a r → ¬ RootInUse r s
      clash r a e n u =
          blocked_clash j.mutating_gradle_root r s.active_gradle_roots
            (subst (λ k. NeedsRoot k r) e n) idle u
