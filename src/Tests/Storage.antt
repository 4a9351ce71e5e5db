-- ===== src/Tests/Storage.antt =====
-- A disk with one file and one temporary file, on which every step succeeds.
use Prim.Native.String
use Prim.Native.String.{len}
use text.Mathlib.TextLemmas.{append_assoc, append-nil}
use dexdeck.Common.{
  ◌≡◌, ◌⊎◌, inl, inr, refl, sym, ap, ◌∙◌, subst, arith, ◌-◌, String, Option, none, some, Bool, true,
  false, List, [], ◌∷◌, drop, length, retain,
}
use dexdeck.Common.Results.{Result, ok, err}
use dexdeck.Protocol.Job.{JobRecord, running, succeeded}
use dexdeck.Jobs.Scheduler.{is_terminal}
use dexdeck.Storage.{IoError, not_found, VersionedEnvelope}
use dexdeck.Storage.Files.{
  FileSystem, Json, write_json_atomic, load_json, reject_unsafe_components, loaded,
  ensure_private_directory,
}
use dexdeck.Storage.Hoare.{Leaves}
use dexdeck.Storage.Atomic.{
  Views, Documented, OldOrNew, write_json_atomic-Leaves, load_json-write_json_atomic,
}
use dexdeck.Storage.JobHistory.{
  newest_terminal, save_job_history, load_job_history, load_job_history-save_job_history,
}
use dexdeck.Tests.Fixtures.{job_record}

-- The text of the file now, and the one before the directory was synced; the text of the temporary
-- file, whether it is synced, and what its writer holds back.
record OneFile : Type 0 where
  file : Option String
  settled : Option String
  temporary : String
  on_medium : Bool
  held : String

abbrev open_of : Option String → Result IoError String
open_of none = err (record { kind = not_found; text = "no file" })
open_of (some text) = ok text

abbrev flushed : OneFile → OneFile
flushed d = record d {
  temporary = String.◌++◌ d.temporary d.held;
  held = String.[];
  on_medium = false;
}

abbrev held_back : String → OneFile → OneFile
held_back text d = record d { held = String.◌++◌ d.held text }

abbrev fs : FileSystem
fs = record {
  Disk = OneFile;
  Temporary = Unit {0};
  Writer = Unit {0};
  File = String;
  ancestors = λ path. path ∷ [];
  parent = λ _. some "state";
  symlink_metadata = λ _ _. ok false;
  create_dir_all = λ _ d. (ok tt, d);
  set_private_directory = λ _ d. (ok tt, d);
  new_in = λ _ d. (ok tt, record d { temporary = String.[]; held = String.[]; on_medium = false });
  set_private_file = λ _ d. (ok tt, d);
  temporary_path = λ _. "temporary";
  write_all =
      λ _ text d. (ok tt, record d { temporary = String.◌++◌ d.temporary text; on_medium = false });
  flush = λ _ d. (ok tt, d);
  new_writer = λ _. tt;
  buffer_all = λ _ text d. (ok tt, held_back text d);
  flush_buffer = λ _ d. (ok tt, flushed d);
  drop_writer = λ _ d. flushed d;
  sync_all = λ _ d. (ok tt, record d { on_medium = true });
  persist = λ _ _ d. (ok tt, record d { file = some d.temporary });
  sync_directory = λ _ d. (ok tt, record d { settled = d.file });
  open_file = λ _ d. open_of d.file;
  file_len = λ text _. ok (len text);
  read_all = λ text _. ok text;
  rename = λ _ _ d. (ok tt, record d { file = none });
  corrupt_name = λ path _. path;
}

abbrev jobs : List JobRecord
jobs = job_record "job-1" succeeded ∷ job_record "job-2" running ∷ []

abbrev saved : VersionedEnvelope (List JobRecord)
saved = record { schema_version = 1; data_of = newest_terminal jobs }

abbrev json : Json fs (List JobRecord)
json = record { to_writer = λ _ _ d. (ok tt, held_back "{}" d); from_reader = λ _. ok saved }

open_content :
    (o : Option String) (file text : String)
    → open_of o ≡ ok file
    → ◌≡◌ {A = Result IoError String} (ok file) (ok text)
    → o ≡ some text
open_content none file text h e = cc
open_content (some t) file text h e = cc

appended :
    (a b text s : String)
    → String.◌++◌ a b ≡ s
    → String.◌++◌ a (String.◌++◌ b text) ≡ String.◌++◌ s text
appended a b text s h = sym (append_assoc a b text) ∙ ap (λ t. String.◌++◌ t text) h

nothing_left : (a s : String) → a ≡ s → String.◌++◌ a String.[] ≡ s
nothing_left a s h = append-nil a ∙ h

abbrev views : Views fs
views = record {
  content = λ d. d.file;
  after_crash = λ d s. (s ≡ d.settled) ⊎ (s ≡ d.file);
  in_file = λ _ d. d.temporary;
  synced = λ _ d. d.on_medium;
  buffered = λ _ d. d.held;
}

abbrev documented : Documented fs json "jobs.json"
documented = record {
  views = views;
  json_text = λ _. "{}";
  create_keeps = λ _ c P d h. record { outcome = h };
  directory_keeps = λ _ c P d h. record { outcome = h };
  new_keeps = λ _ c P d h. record { outcome = (h, refl, refl) };
  private_keeps = λ _ c P s d h. record { outcome = h };
  to_writer_appends =
      λ _ c P s v d h. record { outcome = (h.0, appended d.temporary d.held "{}" s h.1) };
  write_appends =
      λ _ c P s text d h. record { outcome = (h.0, appended d.temporary d.held text s h.1) };
  flush_writes = λ _ c P s d h. record { outcome = (h.0, h.1, refl) };
  drop_keeps = λ _ c P s d h.
      (h.0, subst (λ t. String.◌++◌ d.temporary t ≡ s) (sym h.2) (nothing_left d.temporary s h.1));
  sync_writes = λ _ c P s d h. record { outcome = (h.0, h.1, refl) };
  persist_replaces = λ _ c P s d h. record {
    outcome = (
      ap some h.1,
      λ s' crashed. elim crashed [
        | inl old ↦ inl (h.0.1 s' (inl old))
        | inr new ↦ inr (new ∙ ap some h.1)
      ],
    );
  };
  sync_directory_settles = λ _ P s e d h. record {
    outcome = (h.0, λ s' crashed. elim crashed [ inl new ↦ new ∙ h.0 | inr new ↦ new ∙ h.0 ]);
  };
  read_content = λ d file text h e. open_content d.file file text h e;
}

abbrev before : OneFile
before = record {
  file = some "old";
  settled = some "old";
  temporary = String.[];
  on_medium = false;
  held = String.[];
}

abbrev after : OneFile
after = record {
  file = some "{}\n";
  settled = some "{}\n";
  temporary = "{}\n";
  on_medium = true;
  held = String.[];
}

write_json_atomic-Leaves_example :
    Leaves
      (λ _ d.
        (d.file ≡ some "{}\n")
        × ((s : Option String) → (s ≡ d.settled) ⊎ (s ≡ d.file) → s ≡ some "{}\n"))
      (OldOrNew fs json "jobs.json" documented
        (some "old")
        (λ s. (s ≡ some "old") ⊎ (s ≡ some "old"))
        saved)
      (write_json_atomic fs json "jobs.json" saved before)
write_json_atomic-Leaves_example =
    write_json_atomic-Leaves fs json "jobs.json" documented saved before

wrote : write_json_atomic fs json "jobs.json" saved before ≡ (ok tt, after)
unfolding write_json_atomic ensure_private_directory reject_unsafe_components
wrote = refl

safe : reject_unsafe_components fs "jobs.json" after ≡ ok tt
unfolding reject_unsafe_components
safe = refl

load_json-write_json_atomic_example :
    load_json fs json "jobs.json" 1 after ≡ (ok (some (newest_terminal jobs)), after)
load_json-write_json_atomic_example =
    load_json-write_json_atomic fs json "jobs.json" documented 1 (newest_terminal jobs) before after
      "{}\n" "{}\n" 3 refl wrote safe refl refl refl (omega arith)

load_job_history-save_job_history_example :
    load_job_history fs json (λ _. "corrupt") 5 "jobs.json" after ≡ (
      ok (
          loaded (
            drop
              (length (retain (λ r. is_terminal r.state) jobs) - 50)
              (retain (λ r. is_terminal r.state) jobs))),
      after,
    )
load_job_history-save_job_history_example =
    load_job_history-save_job_history fs json "jobs.json" documented jobs (λ _. "corrupt") 5 before
      after "{}\n" "{}\n" 3 refl (unfold save_job_history in wrote) safe refl refl refl
      (omega arith)
