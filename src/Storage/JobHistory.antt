-- ===== src/Storage/JobHistory.antt =====
-- crates/dexdeck-config/src/job_history.rs: the finished jobs on disk.
use dexdeck.Common.{
  ◌≡◌, refl, sym, ap, ◌∙◌, arith, ◌≤◌, ◌-◌, ℕ, String, Bool, true, Bool-cases, inl, inr, List, [],
  ◌∷◌, length, take, drop, reverse, retain, All, All-drop, length-drop,
}
use dexdeck.Common.Reverse.{newest_drop}
use dexdeck.Common.Results.{Result, ok, err}
use dexdeck.Protocol.Job.{JobRecord}
use dexdeck.Jobs.Scheduler.{is_terminal}
use dexdeck.Storage.{StorageError}
use dexdeck.Storage.Files.{
  OnDisk, FileSystem, Json, RecoveredFile, missing, loaded, corrupt, write_json_atomic,
  reject_unsafe_components, load_json_recovering, max_local_state_bytes,
}
use dexdeck.Storage.Atomic.{Documented, load_json-write_json_atomic, ReadsBack}

abbrev pub job_history_schema_version : ℕ
job_history_schema_version = 1

abbrev pub persisted_job_history_limit : ℕ
persisted_job_history_limit = 50

-- `filter`, `rev`, `take`, and `rev` again.
unfoldable pub newest_terminal : List JobRecord → List JobRecord
newest_terminal records =
    reverse (take persisted_job_history_limit (reverse (retain (λ r. is_terminal r.state) records)))

module _ (fs : FileSystem) (json : Json fs (List JobRecord)) where
  unfoldable pub save_job_history :
      (path : String) → List JobRecord → OnDisk fs.Disk StorageError (Unit {0})
  save_job_history path records =
      write_json_atomic fs json path
        (record { schema_version = job_history_schema_version; data_of = newest_terminal records })

  abbrev newest_of : RecoveredFile (List JobRecord) → RecoveredFile (List JobRecord)
  newest_of (loaded records) = loaded (newest_terminal records)
  newest_of missing = missing
  newest_of (corrupt quarantined_path message) = corrupt quarantined_path message

  abbrev newest_loaded :
      Result StorageError (RecoveredFile (List JobRecord)) × fs.Disk
      → Result StorageError (RecoveredFile (List JobRecord)) × fs.Disk
  newest_loaded (ok file, disk) = (ok (newest_of file), disk)
  newest_loaded (err failure, disk) = (err failure, disk)

  unfoldable pub load_job_history :
      (display : StorageError → String) (now : ℕ) (path : String)
      → OnDisk fs.Disk StorageError (RecoveredFile (List JobRecord))
  load_job_history display now path disk =
      newest_loaded (load_json_recovering fs display now json path job_history_schema_version disk)

is_finished : JobRecord → Bool
is_finished r = is_terminal r.state

abbrev finished : List JobRecord → List JobRecord
finished records = retain (λ r. is_terminal r.state) records

finished-All : (records : List JobRecord) → All (λ r. is_terminal r.state ≡ true) (finished records)
finished-All [] = tt
finished-All (r ∷ records) = elim (Bool-cases (is_terminal r.state)) [
  | inl t ↦ rw t (t, finished-All records)
  | inr f ↦ rw f (finished-All records)
]

finished_same :
    (records : List JobRecord)
    → All (λ r. is_terminal r.state ≡ true) records
    → finished records ≡ records
finished_same [] h = refl
finished_same (r ∷ records) (here, later) =
    rw here (ap (λ rest. r ∷ rest) (finished_same records later))

newest_terminal-drop :
    (records : List JobRecord)
    → newest_terminal records ≡ drop (length (finished records) - 50) (finished records)
unfolding newest_terminal
newest_terminal-drop records = newest_drop 50 (finished records)

-- What is saved is not cut again.
newest_terminal_twice :
    (records : List JobRecord) → newest_terminal (newest_terminal records) ≡ newest_terminal records
newest_terminal_twice records =
    newest_terminal-drop (newest_terminal records)
    ∙ ap (λ rs. drop (length rs - 50) rs) again
    ∙ ap (λ (k : ℕ). drop k (newest_terminal records)) (sym short)
  where
    again : finished (newest_terminal records) ≡ newest_terminal records
    again =
        ap finished (newest_terminal-drop records)
        ∙ finished_same _ (All-drop _ _ (finished records) (finished-All records))
        ∙ sym (newest_terminal-drop records)

    short : 0 ≡ length (newest_terminal records) - 50
    short = omega (
      arith,
      ap length (newest_terminal-drop records),
      length-drop (length (finished records) - 50) (finished records),
    )

module _ (fs : FileSystem) (json : Json fs (List JobRecord)) (path : String)
    (doc : Documented fs json path) where
  -- What is saved is loaded, cut to its limit, on a disk that does as documented: if the JSON that is
  -- saved is read back as it was, saving jobs succeeds, and the file can then be looked up, opened and
  -- read and is no larger than 64 MiB, loading returns, in their order, the last fifty of those jobs
  -- that have ended, or all of them if they are fewer.
  pub load_job_history-save_job_history :
      (records : List JobRecord) (display : StorageError → String) (now : ℕ)
      (before after : fs.Disk) (file : fs.File) (text : String) (size : ℕ)
      → ReadsBack fs json path doc (record {
        schema_version = job_history_schema_version;
        data_of = newest_terminal records;
      })
      → save_job_history fs json path records before ≡ (ok tt, after)
      → reject_unsafe_components fs path after ≡ ok tt
      → fs.open_file path after ≡ ok file
      → fs.file_len file after ≡ ok size
      → fs.read_all file after ≡ ok text
      → size ≤ max_local_state_bytes
      → load_job_history fs json display now path after ≡ (
        ok (
            loaded (
              drop
                (length (retain (λ r. is_terminal r.state) records) - 50)
                (retain (λ r. is_terminal r.state) records))),
        after,
      )
  unfolding save_job_history load_job_history load_json_recovering
  load_job_history-save_job_history records display now before after file text size back saved safe
        opened sized reads fits =
      rw
        (load_json-write_json_atomic fs json path doc job_history_schema_version
          (newest_terminal records) before after file text size back saved safe opened sized reads
          fits)
        (ap (λ rs. (ok (loaded rs), after))
          (newest_terminal_twice records ∙ newest_terminal-drop records))
