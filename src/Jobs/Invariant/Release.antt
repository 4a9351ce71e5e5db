-- ===== src/Jobs/Invariant/Release.antt =====
-- The end of a job that holds a root: the root is let go, and goes to the job that waited longest.
use dexdeck.Common.{
  String, String-discrete, none, true, false, ◌≡◌, ◌≢◌, refl, arith, sym, subst, contains,
  remove_all, contains-remove_all, decide, List,
}
use dexdeck.Protocol.Job.{JobId}
use dexdeck.Jobs.Scheduler.{Job, JobScheduler, is_terminal}
use dexdeck.Jobs.Steps.{At, retire}
use dexdeck.Jobs.Invariant.Removal.{At-retire, retire-At}
use dexdeck.Jobs.Invariant.{Waits, NeedsRoot, RootInUse, Listed, Inv}

-- The invariant while `root` is free and jobs may wait for it.
pub record Freed (root : String) (s : JobScheduler) : Type 0 where
  pub unfinished : (i : JobId) (a : Job) → At i s a → is_terminal a.job_record.state ≡ false
  pub exclusive :
      (i k : JobId) (a b : Job) (r : String)
      → At i s a
      → At k s b
      → NeedsRoot a r
      → NeedsRoot b r
      → ¬ Waits a
      → ¬ Waits b
      → i ≡ k
  pub in_use :
      (i : JobId) (a : Job) (r : String) → At i s a → NeedsRoot a r → ¬ Waits a → RootInUse r s
  pub owned :
      (r : String)
      → RootInUse r s
      → (i : JobId) × (a : Job) × At i s a × NeedsRoot a r × (¬ Waits a)
  pub waiting_listed : (i : JobId) (a : Job) → At i s a → Waits a → Listed i s
  pub listed_waiting :
      (i : JobId)
      → Listed i s
      → (a : Job) × (r : String) × At i s a × Waits a × NeedsRoot a r × (r ≢ root → RootInUse r s)
  pub capacity_pos : s.output_capacity ≢ 0
  pub free : ¬ RootInUse root s

pub At-unique : (i : JobId) (s : JobScheduler) {a b : Job} → At i s a → At i s b → a ≡ b
At-unique i s h k = ground arith

NeedsRoot-unique : (a : Job) {p q : String} → NeedsRoot a p → NeedsRoot a q → p ≡ q
NeedsRoot-unique a h k = ground arith

pub remove_kept :
    (r q : String) (l : List String)
    → q ≢ r
    → contains String-discrete q l ≡ true
    → contains String-discrete q (remove_all String-discrete r l) ≡ true
unfolding decide
remove_kept r q l n h = elim (String-discrete r q) [
  | yes e ↦ absurd (n (sym e))
  | no m ↦ ground (arith, contains-remove_all String-discrete r q l)
]

pub kept_remove :
    (r q : String) (l : List String)
    → contains String-discrete q (remove_all String-discrete r l) ≡ true
    → (q ≢ r) × (contains String-discrete q l ≡ true)
unfolding decide
kept_remove r q l h = elim (String-discrete r q) [
  | yes e ↦ absurd (ground (arith, contains-remove_all String-discrete r q l))
  | no m ↦ (λ e. m (sym e), ground (arith, contains-remove_all String-discrete r q l))
]

abbrev pub let_go : String → JobScheduler → JobScheduler
let_go root s = record s {
  active_gradle_roots = remove_all String-discrete root s.active_gradle_roots;
}

module _ (id : JobId) {j : Job} {s : JobScheduler} (v : Inv s) (present : At id s j)
    (active : ¬ Waits j) where
  not_itself : (i : JobId) (a : Job) → At i s a → Waits a → i ≢ id
  not_itself i a h w e = active (subst Waits (At-unique id s (subst (λ k. At k s a) e h) present) w)

  pub release-Freed :
      (f : Job → Job) (root : String)
      → NeedsRoot j root
      → Freed root (let_go root (retire id f j s))
  release-Freed f root need =
      let out = At-retire id f j s in
      let into = retire-At id f j s in
      record {
        unfinished = λ i a h. v.unfinished i a (out i a h).1;
        exclusive = λ i k a b r ha hb. v.exclusive i k a b r (out i a ha).1 (out k b hb).1;
        in_use = λ i a r h na wa.
            let (n, ha) = out i a h in
            remove_kept root r s.active_gradle_roots
              (λ e.
                n (v.exclusive i id a j root ha present (subst (NeedsRoot a) e na) need wa active))
              (v.in_use i a r ha na wa);
        owned = λ r h.
            let (n, u) = kept_remove root r s.active_gradle_roots h in
            let (i, a, ha, na, wa) = v.owned r u in
            (
              i,
              a,
              into i a
                  (λ e. n (
                    NeedsRoot-unique j
                      (subst (λ x. NeedsRoot x r)
                        (At-unique id s (subst (λ k. At k s a) e ha) present) na)
                      need))
                  ha,
              na,
              wa,
            );
        waiting_listed = λ i a h wa. v.waiting_listed i a (out i a h).1 wa;
        listed_waiting = λ i l.
            let (a, r, ha, wa, na, u) = v.listed_waiting i l in
            (
              a,
              r,
              into i a (not_itself i a ha wa) ha,
              wa,
              na,
              λ n. remove_kept root r s.active_gradle_roots n u,
            );
        capacity_pos = v.capacity_pos;
        free = λ h. (kept_remove root root s.active_gradle_roots h).0 refl;
      }

  pub retire_rootless-Inv : (f : Job → Job) → j.mutating_gradle_root ≡ none → Inv (retire id f j s)
  retire_rootless-Inv f rootless =
      let out = At-retire id f j s in
      let into = retire-At id f j s in
      record {
        unfinished = λ i a h. v.unfinished i a (out i a h).1;
        exclusive = λ i k a b r ha hb. v.exclusive i k a b r (out i a ha).1 (out k b hb).1;
        in_use = λ i a r h. v.in_use i a r (out i a h).1;
        owned = λ r u.
            let (i, a, ha, na, wa) = v.owned r u in
            (
              i,
              a,
              into i a
                  (λ e.
                    let same = At-unique id s (subst (λ k. At k s a) e ha) present in
                    let held = subst (λ x. NeedsRoot x r) same na in cc)
                  ha,
              na,
              wa,
            );
        waiting_listed = λ i a h wa. v.waiting_listed i a (out i a h).1 wa;
        listed_waiting = λ i l.
            let (a, r, ha, wa, na, u) = v.listed_waiting i l in
            (a, r, into i a (not_itself i a ha wa) ha, wa, na, u);
        capacity_pos = v.capacity_pos;
      }
