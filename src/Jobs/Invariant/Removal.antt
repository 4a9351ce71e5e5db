-- ===== src/Jobs/Invariant/Removal.antt =====
-- Taking a job out of the table, and letting its root go.
use dexdeck.Common.{
  String-discrete, true, ◌≡◌, ◌≢◌, arith, sym, subst, update, lookup-update, lookup-remove,
  contains, remove_all, contains-remove_all, decide,
}
use dexdeck.Protocol.Job.{JobId}
use dexdeck.Jobs.Scheduler.{Job, JobScheduler}
use dexdeck.Jobs.Steps.{At, retire}
use dexdeck.Jobs.Invariant.{Waits, Listed, Inv}

module _ (id : JobId) (f : Job → Job) (j : Job) (s : JobScheduler) where
  pub At-retire : (i : JobId) (a : Job) → At i (retire id f j s) a → (i ≢ id) × At i s a
  At-retire i a h = elim (String-discrete id i) [
    | yes e ↦
        absurd
          (ground (arith, lookup-remove String-discrete id i (update String-discrete id f s.jobs)))
    | no n ↦ (
      λ e. n (sym e),
      ground (
        arith,
        lookup-remove String-discrete id i (update String-discrete id f s.jobs),
        lookup-update String-discrete id i f s.jobs,
      ),
    )
  ]

  pub retire-At : (i : JobId) (a : Job) → i ≢ id → At i s a → At i (retire id f j s) a
  retire-At i a n h = elim (String-discrete id i) [
    | yes e ↦ absurd (n (sym e))
    | no m ↦ ground (
      arith,
      lookup-remove String-discrete id i (update String-discrete id f s.jobs),
      lookup-update String-discrete id i f s.jobs,
    )
  ]

-- A job that waits leaves the queue and the table.
module _ (id : JobId) {j : Job} {s : JobScheduler} (v : Inv s) (present : At id s j)
    (w : Waits j) where
  Waits-unique : (a : Job) → At id s a → Waits a
  Waits-unique a h = ground arith

  Listed-remove :
      (i : JobId)
      → i ≢ id
      → Listed i s
      → contains String-discrete i (remove_all String-discrete id s.queue) ≡ true
  unfolding decide
  Listed-remove i n h = elim (String-discrete id i) [
    | yes e ↦ absurd (n (sym e))
    | no m ↦ ground (arith, contains-remove_all String-discrete id i s.queue)
  ]

  remove-Listed :
      (i : JobId)
      → contains String-discrete i (remove_all String-discrete id s.queue) ≡ true
      → (i ≢ id) × Listed i s
  unfolding decide
  remove-Listed i h = elim (String-discrete id i) [
    | yes e ↦ absurd (ground (arith, contains-remove_all String-discrete id i s.queue))
    | no m ↦ (λ e. m (sym e), ground (arith, contains-remove_all String-discrete id i s.queue))
  ]

  pub retire_waiting-Inv :
      (f : Job → Job)
      → Inv (retire id f j (record s { queue = remove_all String-discrete id s.queue }))
  retire_waiting-Inv f =
      let t = record s { queue = remove_all String-discrete id s.queue } in
      let out = At-retire id f j t in
      record {
        unfinished = λ i a h. v.unfinished i a (out i a h).1;
        exclusive = λ i k a b root ha hb. v.exclusive i k a b root (out i a ha).1 (out k b hb).1;
        in_use = λ i a root h. v.in_use i a root (out i a h).1;
        owned = λ root h.
            let (i, a, ha, na, wa) = v.owned root h in
            (
              i,
              a,
              retire-At id f j t i a (λ e. wa (Waits-unique a (subst (λ k. At k s a) e ha))) ha,
              na,
              wa,
            );
        waiting_listed =
            λ i a h wa. let (n, ha) = out i a h in Listed-remove i n (v.waiting_listed i a ha wa);
        listed_waiting = λ i h.
            let (n, l) = remove-Listed i h in
            let (a, root, ha, wa, na, u) = v.listed_waiting i l in
            (a, root, retire-At id f j t i a n ha, wa, na, u);
        capacity_pos = v.capacity_pos;
      }
