-- ===== src/Jobs/Invariant.antt =====
-- What holds of a scheduler between two calls: one running job for each Gradle root, and a queue
-- that lists exactly the jobs that wait for a root in use.
pub mod Changes
pub mod Removal
pub mod Release
pub mod Promote
pub mod Submit
use dexdeck.Common.{String, String-discrete, some, true, false, ◌≡◌, ◌≢◌, contains, ℕ}
use dexdeck.Protocol.Job.{JobId, JobState, queued}
use dexdeck.Jobs.Scheduler.{Job, JobScheduler, is_terminal}
use dexdeck.Jobs.Steps.{At}

abbrev pub Waits : Job → Type 0
Waits j = j.job_record.state ≡ queued

abbrev pub NeedsRoot : Job → String → Type 0
NeedsRoot j root = j.mutating_gradle_root ≡ some root

abbrev pub RootInUse : String → JobScheduler → Type 0
RootInUse root s = contains String-discrete root s.active_gradle_roots ≡ true

abbrev pub Listed : JobId → JobScheduler → Type 0
Listed id s = contains String-discrete id s.queue ≡ true

pub record Inv (s : JobScheduler) : Type 0 where
  pub unfinished : (i : JobId) (a : Job) → At i s a → is_terminal a.job_record.state ≡ false
  pub exclusive :
      (i k : JobId) (a b : Job) (root : String)
      → At i s a
      → At k s b
      → NeedsRoot a root
      → NeedsRoot b root
      → ¬ Waits a
      → ¬ Waits b
      → i ≡ k
  pub in_use :
      (i : JobId) (a : Job) (root : String)
      → At i s a
      → NeedsRoot a root
      → ¬ Waits a
      → RootInUse root s
  pub owned :
      (root : String)
      → RootInUse root s
      → (i : JobId) × (a : Job) × At i s a × NeedsRoot a root × (¬ Waits a)
  pub waiting_listed : (i : JobId) (a : Job) → At i s a → Waits a → Listed i s
  pub listed_waiting :
      (i : JobId)
      → Listed i s
      → (a : Job) × (root : String) × At i s a × Waits a × NeedsRoot a root × RootInUse root s
  pub capacity_pos : s.output_capacity ≢ 0
