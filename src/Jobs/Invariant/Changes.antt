-- ===== src/Jobs/Invariant/Changes.antt =====
-- A method that changes one job and neither starts nor stops it keeps the invariant.
use dexdeck.Common.{
  String, String-discrete, true, false, ◌≡◌, refl, arith, sym, ◌∙◌, subst, lookup, update,
  lookup-update, inl, inr, contains, Option-cases,
}
use dexdeck.Protocol.Job.{JobId}
use dexdeck.Jobs.Scheduler.{Job, JobScheduler, is_terminal}
use dexdeck.Jobs.Steps.{At}
use dexdeck.Jobs.Invariant.{Waits, NeedsRoot, RootInUse, Inv}

-- `b` stands where `a` stood.
pub record Replaces (a b : Job) : Type 0 where
  pub same_root : b.mutating_gradle_root ≡ a.mutating_gradle_root
  pub still_waits : Waits a → Waits b
  pub waited : Waits b → Waits a
  pub live : is_terminal b.job_record.state ≡ false

-- The jobs of `t` are those of `s`, each replaced, and all else is the same.
pub record Related (s t : JobScheduler) : Type 0 where
  pub forth : (i : JobId) (a : Job) → At i s a → (b : Job) × At i t b × Replaces a b
  pub back : (i : JobId) (b : Job) → At i t b → (a : Job) × At i s a × Replaces a b
  pub same_queue : t.queue ≡ s.queue
  pub same_roots : t.active_gradle_roots ≡ s.active_gradle_roots
  pub same_capacity : t.output_capacity ≡ s.output_capacity

module _ {s t : JobScheduler} (r : Related s t) (v : Inv s) where
  needs : (a b : Job) (root : String) → Replaces a b → NeedsRoot b root → NeedsRoot a root
  needs a b root p h = sym p.same_root ∙ h

  roots_back : (root : String) → RootInUse root t → RootInUse root s
  roots_back root h = subst (λ l. contains String-discrete root l ≡ true) r.same_roots h

  roots_forth : (root : String) → RootInUse root s → RootInUse root t
  roots_forth root h = subst (λ l. contains String-discrete root l ≡ true) (sym r.same_roots) h

  pub Related-Inv : Inv t
  Related-Inv = record {
    unfinished = λ i b h. (r.back i b h).2.live;
    exclusive = λ i k b d root hb hd nb nd wb wd.
        let (a, ha, p) = r.back i b hb in
        let (c, hc, q) = r.back k d hd in
        v.exclusive i k a c root ha hc (needs a b root p nb) (needs c d root q nd)
          (λ w. wb (p.still_waits w)) (λ w. wd (q.still_waits w));
    in_use = λ i b root hb nb wb.
        let (a, ha, p) = r.back i b hb in
        roots_forth root (v.in_use i a root ha (needs a b root p nb) (λ w. wb (p.still_waits w)));
    owned = λ root h.
        let (i, a, ha, na, wa) = v.owned root (roots_back root h) in
        let (b, hb, p) = r.forth i a ha in (i, b, hb, p.same_root ∙ na, λ w. wa (p.waited w));
    waiting_listed = λ i b hb wb.
        let (a, ha, p) = r.back i b hb in
        subst (λ l. contains String-discrete i l ≡ true) (sym r.same_queue)
          (v.waiting_listed i a ha (p.waited wb));
    listed_waiting = λ i h.
        let (a, root, ha, wa, na, u) =
          v.listed_waiting i (subst (λ l. contains String-discrete i l ≡ true) r.same_queue h) in
        let (b, hb, p) = r.forth i a ha in
        (b, root, hb, p.still_waits wa, p.same_root ∙ na, roots_forth root u);
    capacity_pos = λ e. v.capacity_pos (sym r.same_capacity ∙ e);
  }

module _ (id : JobId) (f : Job → Job) (s : JobScheduler)
    (keeps : (a : Job) → At id s a → Replaces a (f a))
    (live : (i : JobId) (a : Job) → At i s a → is_terminal a.job_record.state ≡ false) where
  itself : (i : JobId) (a : Job) → At i s a → Replaces a a
  itself i a h = record {
    same_root = refl;
    still_waits = λ w. w;
    waited = λ w. w;
    live = live i a h;
  }

  changed : JobScheduler
  changed = record s { jobs = update String-discrete id f s.jobs }

  update_forth : (i : JobId) (a : Job) → At i s a → (b : Job) × At i changed b × Replaces a b
  unfolding changed
  update_forth i a h = elim (String-discrete id i) [
    | yes e ↦ (
      f a,
      ground (arith, lookup-update String-discrete id i f s.jobs),
      keeps a (subst (λ k. At k s a) (sym e) h),
    )
    | no n ↦ (a, ground (arith, lookup-update String-discrete id i f s.jobs), itself i a h)
  ]

  update_hit : (i : JobId) (b : Job) → id ≡ i → At i changed b → (a : Job) × At i s a × (b ≡ f a)
  unfolding changed
  update_hit i b e h = elim (Option-cases (lookup String-discrete i s.jobs)) [
    | inl z ↦ absurd (ground (arith, lookup-update String-discrete id i f s.jobs))
    | inr (a, z) ↦ (a, z, ground (arith, lookup-update String-discrete id i f s.jobs))
  ]

  update_back : (i : JobId) (b : Job) → At i changed b → (a : Job) × At i s a × Replaces a b
  unfolding changed
  update_back i b h = elim (String-discrete id i) [
    | yes e ↦
        let (a, z, q) = update_hit i b e h in
        (a, z, subst (Replaces a) (sym q) (keeps a (subst (λ k. At k s a) (sym e) z)))
    | no n ↦
        let z : At i s b = ground (arith, lookup-update String-discrete id i f s.jobs) in
        (b, z, itself i b z)
  ]

  pub Related-update : Related s (record s { jobs = update String-discrete id f s.jobs })
  unfolding changed
  Related-update = record {
    forth = update_forth;
    back = update_back;
    same_queue = refl;
    same_roots = refl;
    same_capacity = refl;
  }
