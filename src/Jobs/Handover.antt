-- ===== src/Jobs/Handover.antt =====
-- Who gets a Gradle root when the job that holds it ends.
use dexdeck.Common.{
  String, String-discrete, Option, none, some, Bool, true, false, ◌≡◌, ◌≢◌, refl, arith, sym, ◌∙◌,
  subst, ap, lookup, update, ◌⊎◌, inl, inr, contains, Option-cases, Bool-cases, List, [], ◌∷◌, find,
  decide, lookup-update, lookup-remove, remove_all,
}
use dexdeck.Protocol.Job.{JobId, starting}
use dexdeck.Jobs.Scheduler.{
  Job, JobFinish, JobScheduler, ok, is_terminal, has_root, finish, release_root,
  next_queued_for_root, promote, set_state,
}
use dexdeck.Jobs.Steps.{At, retire, finished_record, finish-present}
use dexdeck.Jobs.Invariant.Removal.{retire-At}
use dexdeck.Jobs.Invariant.Release.{Freed, At-unique, release-Freed, let_go, kept_remove}
use dexdeck.Jobs.Invariant.Promote.{
  promoted, promote-some, At-next, next_some, find-some, has_root_at,
}
use dexdeck.Jobs.Invariant.{Waits, NeedsRoot, RootInUse, Inv}

abbrev pub to_list : Option JobId → List JobId
to_list none = []
to_list (some id) = id ∷ []

find_same :
    (p q : String → Bool) (l : List String)
    → ((x : String) → contains String-discrete x l ≡ true → p x ≡ q x)
    → find p l ≡ find q l
unfolding contains decide
find_same p q [] same = refl
find_same p q (y ∷ l) same =
    ground (arith, same y (here y), find_same p q l (λ x h. same x (there x h)))
  where
    here : (x : String) → contains String-discrete x (x ∷ l) ≡ true
    here x = elim (String-discrete x x) [ yes e ↦ ground arith | no n ↦ absurd (n refl) ]

    there :
        (x : String)
        → contains String-discrete x l ≡ true
        → contains String-discrete x (y ∷ l) ≡ true
    there x h = ground arith

-- A job other than the one that ends is found in the table that is left, and no other is.
has_root-retire :
    (id : JobId) (g : Job → Job) (j : Job) (s : JobScheduler) (root : String) (i : JobId)
    → i ≢ id
    → has_root root (lookup String-discrete i (retire id g j s).jobs)
      ≡ has_root root (lookup String-discrete i s.jobs)
has_root-retire id g j s root i n = ap (has_root root) (elim (String-discrete id i) [
  | yes e ↦ absurd (n (sym e))
  | no m ↦ ground (
    arith,
    lookup-remove String-discrete id i (update String-discrete id g s.jobs),
    lookup-update String-discrete id i g s.jobs,
  )
])

module _ (id : JobId) {j : Job} {s : JobScheduler} (v : Inv s) (present : At id s j) (f : JobFinish)
    (terminal : is_terminal f.state ≡ true) (root : String) (need : NeedsRoot j root) where
  rest : JobScheduler
  rest = let_go root (retire id (finished_record f) j s)

  finish-promote : finish id f s ≡ promote root (next_queued_for_root root rest) rest
  unfolding rest release_root
  finish-promote = finish-present id s present f terminal (v.unfinished id j present) ∙ rw need

  module _ (active : ¬ Waits j) where
    next_same : next_queued_for_root root rest ≡ next_queued_for_root root s
    unfolding rest next_queued_for_root
    next_same =
        find_same
          (λ i. has_root root (lookup String-discrete i (retire id (finished_record f) j s).jobs))
          (λ i. has_root root (lookup String-discrete i s.jobs)) s.queue
          (λ i l. has_root-retire id (finished_record f) j s root i (not_listed i l))
      where
        not_listed : (i : JobId) → contains String-discrete i s.queue ≡ true → i ≢ id
        not_listed i l e =
            let (a, r, ha, wa, na, u) = v.listed_waiting i l in
            active (subst Waits (At-unique id s (subst (λ k. At k s a) e ha) present) wa)

    rest-Freed : Freed root rest
    unfolding rest
    rest-Freed = release-Freed id v present active (finished_record f) root need

    -- In a scheduler with the invariant, a started job with a root is finished with a terminal state:
    -- if a job in the queue wants this root, the first such job is started, is the one that is
    -- returned, keeps the root, and leaves the queue.
    pub finish_hands_over :
        {next : JobId}
        → next_queued_for_root root s ≡ some next
        → ((finish id f s).1 ≡ ok (next ∷ []))
          × ((n : Job) × At next (finish id f s).0 n
              × NeedsRoot n root
              × (n.job_record.state ≡ starting))
          × (contains String-discrete next (finish id f s).0.queue ≡ false)
    finish_hands_over {next} e =
        let (n, hn, wn, nn) = next_some root rest rest-Freed (next_same ∙ e) in
        let t : finish id f s ≡ (promoted next root rest, ok (next ∷ [])) =
          finish-promote ∙ rw (next_same, e) (promote-some root next rest hn) in
        rw t (
          refl,
          (set_state starting n, At-next root rest-Freed next hn wn nn, nn, refl),
          removed next rest.queue,
        )
      where
        removed :
            (x : String) (l : List String)
            → contains String-discrete x (remove_all String-discrete x l) ≡ false
        removed x l =
            elim (Bool-cases (contains String-discrete x (remove_all String-discrete x l))) [
              | inl h ↦ absurd ((kept_remove x x l h).0 refl)
              | inr h ↦ h
            ]

  module _ (waits : Waits j) where
    abbrev pub Unsafe : JobScheduler → Type 0
    Unsafe t =
        (holder : JobId) × (a : Job) × At holder t a
        × NeedsRoot a root
        × (¬ Waits a)
        × ((¬ RootInUse root t)
            ⊎ ((other : JobId) × (b : Job) × (other ≢ holder)
                × At other t b
                × NeedsRoot b root
                × (¬ Waits b)))

    root_used : RootInUse root s
    root_used =
        let (a, r, ha, wa, na, u) = v.listed_waiting id (v.waiting_listed id j present waits) in
        subst (λ q. RootInUse q s) (same_root a r (At-unique id s ha present) na) u
      where
        same_root : (a : Job) (r : String) → a ≡ j → NeedsRoot a r → r ≡ root
        same_root a r e na = ground arith

    -- The holder of the root is still in the table.
    holder_stays : (holder : JobId) (a : Job) → At holder s a → ¬ Waits a → At holder rest a
    unfolding rest
    holder_stays holder a ha wa =
        retire-At id (finished_record f) j s holder a
          (λ e. wa (subst Waits (At-unique id s present (subst (λ k. At k s a) e ha)) waits)) ha

    second_runs :
        (next : JobId)
        → next_queued_for_root root rest ≡ some next
        → (holder : JobId) (a : Job) → At holder s a
        → NeedsRoot a root
        → ¬ Waits a
        → Unsafe (finish id f s).0
    unfolding rest next_queued_for_root
    second_runs next e holder a ha na wa =
        let (has, listed) =
          find-some (λ i. has_root root (lookup String-discrete i rest.jobs)) rest.queue e in
        let (b, hb, nb) = has_root_at root next rest has in
        let (c, r, hc, wc, nc, u) = v.listed_waiting next listed in
        let other : next ≢ holder =
          λ q. wa (subst Waits (At-unique holder s (subst (λ k. At k s c) q hc) ha) wc) in
        let t : finish id f s ≡ (promoted next root rest, ok (next ∷ [])) =
          finish-promote ∙ rw e (promote-some root next rest hb) in
        rw t (
          holder,
          a,
          kept next holder b a other (holder_stays holder a ha wa),
          na,
          wa,
          inr (next, set_state starting b, other, started next b hb, nb, λ q. cc),
        )
      where
        started :
            (x : JobId) (b : Job) → At x rest b → At x (promoted x root rest) (set_state starting b)
        started x b h = elim (String-discrete x x) [
          | yes q ↦ ground (arith, lookup-update String-discrete x x (set_state starting) rest.jobs)
          | no m ↦ absurd (m refl)
        ]

        kept : (x i : JobId) (b a : Job) → x ≢ i → At i rest a → At i (promoted x root rest) a
        kept x i b a m h = elim (String-discrete x i) [
          | yes q ↦ absurd (m q)
          | no k ↦ ground (arith, lookup-update String-discrete x i (set_state starting) rest.jobs)
        ]

    -- In a scheduler with the invariant, `finish` on a job that still waits in the queue for a root
    -- lets this root go although another job holds it: that job still runs, and either the root is
    -- free, or a second job of the same root has been started.
    pub finish_waiting-Unsafe : Unsafe (finish id f s).0
    finish_waiting-Unsafe =
        let (holder, a, ha, na, wa) = v.owned root root_used in
        elim (Option-cases (next_queued_for_root root rest)) [
          | inl e ↦
              rw (finish-promote, e)
                (unfold rest promote in
                  (
                    holder,
                    a,
                    holder_stays holder a ha wa,
                    na,
                    wa,
                    inl (λ u. (kept_remove root root s.active_gradle_roots u).0 refl),
                  ))
          | inr (next, e) ↦ second_runs next e holder a ha na wa
        ]
