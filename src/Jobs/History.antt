-- ===== src/Jobs/History.antt =====
-- The history of finished jobs: at most fifty records, the newest ones.
use dexdeck.Common.Bounded.{push_all, push_all-drop}
use dexdeck.Common.{
  ℕ, ◌-◌, ◌≡◌, refl, arith, ◌∙◌, ap, inl, inr, Bool-cases, List, [], ◌∷◌, length, drop, retain,
}
use dexdeck.Protocol.Job.{JobRecord}
use dexdeck.Jobs.Scheduler.{
  JobScheduler, is_terminal, push_history, job_history_limit, restore_onto, restore_history,
}

abbrev pub terminal_records : List JobRecord → List JobRecord
terminal_records = retain (λ r. is_terminal r.state)

restore_onto-push_all :
    (history rs : List JobRecord)
    → restore_onto history rs ≡ push_all job_history_limit history (terminal_records rs)
unfolding restore_onto push_all push_history
restore_onto-push_all history [] = refl
restore_onto-push_all history (r ∷ rs) = elim (Bool-cases (is_terminal r.state)) [
  | inl t ↦ rw t (restore_onto-push_all (push_history r history) rs)
  | inr t ↦ rw t (restore_onto-push_all history rs)
]

-- A restored history is the last fifty of the records that are terminal, in their order; the rest
-- of the scheduler is as it was.
pub restore_history-drop :
    (records : List JobRecord) (s : JobScheduler)
    → restore_history records s ≡ record s {
      history =
          drop (length (terminal_records records) - job_history_limit) (terminal_records records);
    }
unfolding restore_history
restore_history-drop records s =
    ap (λ h. record s { history = h })
      (restore_onto-push_all [] records
        ∙ push_all-drop job_history_limit [] (terminal_records records) (omega arith) (omega arith)
        ∙ ap (λ (k : ℕ). drop (k - job_history_limit) (terminal_records records)) (omega arith))
