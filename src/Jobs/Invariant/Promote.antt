-- ===== src/Jobs/Invariant/Promote.antt =====
-- The next job of a root that has just been let go.
use dexdeck.Common.{
  String, String-discrete, none, some, Bool, true, false, ◌≡◌, ◌≢◌, refl, arith, sym, ◌∙◌, subst,
  lookup, update, lookup-update, ◌⊎◌, inl, inr, contains, Option-cases, Bool-cases, remove_all,
  insert_set, contains-insert_set, decide, List, [], ◌∷◌, find,
}
use dexdeck.Protocol.Job.{JobId, starting}
use dexdeck.Jobs.Scheduler.{
  Job, JobScheduler, is_terminal, set_state, has_root, next_queued_for_root, promote, ok, job_mut,
  job,
}
use dexdeck.Jobs.Steps.{At}
use dexdeck.Jobs.Invariant.Release.{Freed, At-unique, remove_kept, kept_remove}
use dexdeck.Jobs.Invariant.{Waits, NeedsRoot, RootInUse, Inv}

module _ (p : String → Bool) where
  pub find-some :
      (l : List String) {x : String}
      → find p l ≡ some x
      → (p x ≡ true) × (contains String-discrete x l ≡ true)
  unfolding contains decide
  find-some [] h = cc
  find-some (y ∷ l) {x} h = elim (Bool-cases (p y)) [
    | inl t ↦ ground (arith, t)
    | inr f ↦ ground (arith, f, find-some l {x = x})
  ]

  pub find-none :
      (l : List String) (x : String)
      → find p l ≡ none
      → contains String-discrete x l ≡ true
      → p x ≡ false
  unfolding contains decide
  find-none [] x h c = cc
  find-none (y ∷ l) x h c = elim (Bool-cases (p y)) [
    | inl t ↦ ground (arith, t)
    | inr f ↦ elim (String-discrete y x) [
      | yes e ↦ subst (λ z. p z ≡ false) e f
      | no n ↦ find-none l x (ground (arith, f)) (ground arith)
    ]
  ]

pub has_root_at :
    (root : String) (i : JobId) (s : JobScheduler)
    → has_root root (lookup String-discrete i s.jobs) ≡ true
    → (a : Job) × At i s a × NeedsRoot a root
unfolding decide
has_root_at root i s h = elim (Option-cases (lookup String-discrete i s.jobs)) [
  | inl z ↦ absurd (ground (arith, z))
  | inr (a, z) ↦ (a, z, ground (arith, z))
]

pub at_has_root :
    (root : String) (i : JobId) (s : JobScheduler) (a : Job)
    → At i s a
    → NeedsRoot a root
    → has_root root (lookup String-discrete i s.jobs) ≡ true
unfolding decide
at_has_root root i s a h n = ground arith

-- Nobody waits for the root.
pub next_none-Inv :
    (root : String) (s : JobScheduler) → Freed root s → next_queued_for_root root s ≡ none → Inv s
unfolding next_queued_for_root
next_none-Inv root s v nobody = record {
  unfinished = v.unfinished;
  exclusive = v.exclusive;
  in_use = v.in_use;
  owned = v.owned;
  waiting_listed = v.waiting_listed;
  listed_waiting = λ i l.
      let (a, r, ha, wa, na, u) = v.listed_waiting i l in
      (
        a,
        r,
        ha,
        wa,
        na,
        u λ e.
            let idle =
              find-none (λ id. has_root root (lookup String-discrete id s.jobs)) s.queue i nobody
                l in
            let busy = at_has_root root i s a ha (subst (NeedsRoot a) e na) in cc,
      );
  capacity_pos = v.capacity_pos;
}

abbrev pub promoted : JobId → String → JobScheduler → JobScheduler
promoted next root s = record s {
  queue = remove_all String-discrete next s.queue;
  jobs = update String-discrete next (set_state starting) s.jobs;
  active_gradle_roots = insert_set String-discrete root s.active_gradle_roots;
}

pub insert_kept :
    (r q : String) (l : List String)
    → contains String-discrete q l ≡ true
    → contains String-discrete q (insert_set String-discrete r l) ≡ true
unfolding decide
insert_kept r q l h = ground (arith, contains-insert_set String-discrete r q l)

pub insert_self :
    (r : String) (l : List String)
    → contains String-discrete r (insert_set String-discrete r l) ≡ true
unfolding decide
insert_self r l = elim (String-discrete r r) [
  | yes e ↦ ground (arith, contains-insert_set String-discrete r r l)
  | no n ↦ absurd (n refl)
]

pub inserted :
    (r q : String) (l : List String)
    → contains String-discrete q (insert_set String-discrete r l) ≡ true
    → (r ≡ q) ⊎ (contains String-discrete q l ≡ true)
unfolding decide
inserted r q l h = elim (String-discrete r q) [
  | yes e ↦ inl e
  | no n ↦ inr (ground (arith, contains-insert_set String-discrete r q l))
]

module _ (root : String) {s : JobScheduler} (v : Freed root s) (next : JobId) {n : Job}
    (present : At next s n) (waits : Waits n) (need : NeedsRoot n root) where
  promoted-At :
      (i : JobId) (b : Job)
      → At i (promoted next root s) b
      → ((i ≡ next) × (b ≡ set_state starting n)) ⊎ ((i ≢ next) × At i s b)
  promoted-At i b h = elim (String-discrete next i) [
    | yes e ↦ inl (
      sym e,
      ground (
        arith,
        lookup-update String-discrete next i (set_state starting) s.jobs,
        subst (λ k. At k s n) e present,
      ),
    )
    | no m ↦ inr (
      λ e. m (sym e),
      ground (arith, lookup-update String-discrete next i (set_state starting) s.jobs),
    )
  ]

  At-promoted : (i : JobId) (a : Job) → i ≢ next → At i s a → At i (promoted next root s) a
  At-promoted i a m h = elim (String-discrete next i) [
    | yes e ↦ absurd (m (sym e))
    | no k ↦ ground (arith, lookup-update String-discrete next i (set_state starting) s.jobs)
  ]

  pub At-next : At next (promoted next root s) (set_state starting n)
  At-next = elim (String-discrete next next) [
    | yes e ↦ ground (arith, lookup-update String-discrete next next (set_state starting) s.jobs)
    | no k ↦ absurd (k refl)
  ]

  -- No other job runs on the root.
  pub alone : (i : JobId) (a : Job) (r : String) → At i s a → NeedsRoot a r → ¬ Waits a → r ≢ root
  alone i a r ha na wa e = v.free (subst (λ q. RootInUse q s) e (v.in_use i a r ha na wa))

  need_next : (b : Job) (r : String) → b ≡ set_state starting n → NeedsRoot b r → r ≡ root
  need_next b r e nb = ground arith

  promoted_exclusive :
      (i k : JobId) (a b : Job) (r : String)
      → At i (promoted next root s) a
      → At k (promoted next root s) b
      → NeedsRoot a r
      → NeedsRoot b r
      → ¬ Waits a
      → ¬ Waits b
      → i ≡ k
  promoted_exclusive i k a b r ha hb na nb wa wb = elim (promoted-At i a ha) [
    | inl (ei, ea) ↦ elim (promoted-At k b hb) [
      | inl (ek, eb) ↦ ei ∙ sym ek
      | inr (_, hb') ↦ absurd (alone k b r hb' nb wb (need_next a r ea na))
    ]
    | inr (_, ha') ↦ elim (promoted-At k b hb) [
      | inl (ek, eb) ↦ absurd (alone i a r ha' na wa (need_next b r eb nb))
      | inr (_, hb') ↦ v.exclusive i k a b r ha' hb' na nb wa wb
    ]
  ]

  live_next :
      (b : Job) → b ≡ set_state starting n → (is_terminal b.job_record.state ≡ false) × (¬ Waits b)
  unfolding is_terminal
  live_next b e = (ground arith, λ w. ground arith)

  promoted_owned :
      (r : String)
      → RootInUse r (promoted next root s)
      → (i : JobId) × (a : Job) × At i (promoted next root s) a × NeedsRoot a r × (¬ Waits a)
  promoted_owned r u = elim (inserted root r s.active_gradle_roots u) [
    | inl e ↦
        (next, set_state starting n, At-next, subst (NeedsRoot n) e need, (live_next _ refl).1)
    | inr u' ↦
        let (i, a, ha, na, wa) = v.owned r u' in
        (
          i,
          a,
          At-promoted i a
              (λ e. wa (subst Waits (At-unique next s present (subst (λ k. At k s a) e ha)) waits))
              ha,
          na,
          wa,
        )
  ]

  pub promoted-Inv : Inv (promoted next root s)
  promoted-Inv = record {
    unfinished = λ i b h. elim (promoted-At i b h) [
      | inl (_, e) ↦ (live_next b e).0
      | inr (_, h') ↦ v.unfinished i b h'
    ];
    exclusive = promoted_exclusive;
    in_use = λ i b r h nb wb. elim (promoted-At i b h) [
      | inl (_, e) ↦
          subst (λ q. RootInUse q (promoted next root s)) (sym (need_next b r e nb))
            (insert_self root s.active_gradle_roots)
      | inr (_, h') ↦ insert_kept root r s.active_gradle_roots (v.in_use i b r h' nb wb)
    ];
    owned = promoted_owned;
    waiting_listed = λ i b h wb. elim (promoted-At i b h) [
      | inl (_, e) ↦ absurd ((live_next b e).1 wb)
      | inr (m, h') ↦ remove_kept next i s.queue m (v.waiting_listed i b h' wb)
    ];
    listed_waiting = λ i l.
        let (m, l') = kept_remove next i s.queue l in
        let (a, r, ha, wa, na, u) = v.listed_waiting i l' in
        (a, r, At-promoted i a m ha, wa, na, used r u);
    capacity_pos = v.capacity_pos;
  }
    where
      used : (r : String) → (r ≢ root → RootInUse r s) → RootInUse r (promoted next root s)
      used r u = elim (String-discrete r root) [
        | yes e ↦
            subst (λ q. RootInUse q (promoted next root s)) (sym e)
              (insert_self root s.active_gradle_roots)
        | no d ↦ insert_kept root r s.active_gradle_roots (u d)
      ]

pub promote-some :
    (root : String) (next : JobId) (s : JobScheduler) {n : Job}
    → At next s n
    → promote root (some next) s ≡ (promoted next root s, ok (next ∷ []))
unfolding promote job_mut job
promote-some root next s h = ground arith

-- The job that `next_queued_for_root` finds waits for that root.
pub next_some :
    (root : String) (s : JobScheduler) {next : JobId}
    → Freed root s
    → next_queued_for_root root s ≡ some next
    → (n : Job) × At next s n × Waits n × NeedsRoot n root
unfolding next_queued_for_root
next_some root s {next} v e =
    let (has, listed) =
      find-some (λ id. has_root root (lookup String-discrete id s.jobs)) s.queue e in
    let (n, hn, need) = has_root_at root next s has in
    let (a, r, ha, wa, na, u) = v.listed_waiting next listed in
    (n, hn, subst Waits (At-unique next s ha hn) wa, need)

-- `release_root` after the root is let go: the invariant is back.
pub promote-Inv :
    (root : String) (s : JobScheduler)
    → Freed root s
    → Inv (promote root (next_queued_for_root root s) s).0
promote-Inv root s v = elim (Option-cases (next_queued_for_root root s)) [
  | inl e ↦ rw e (unfold promote in next_none-Inv root s v e)
  | inr (next, e) ↦
      let (n, hn, wn, need) = next_some root s v e in
      rw (e, promote-some root next s hn) (promoted-Inv root v next hn wn need)
]
