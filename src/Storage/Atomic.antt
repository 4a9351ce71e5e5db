-- ===== src/Storage/Atomic.antt =====
-- crates/dexdeck-config/src/atomic.rs: a write leaves the old file or the whole new one, and what
-- has been written can be loaded.
use Prim.Native.String
use Prim.Native.String.append
use Prim.Native.String.{len}
use dexdeck.Common.{
  ◌≡◌, refl, sym, ap, ◌∙◌, subst, arith, ◌≤◌, ◌⊎◌, inl, inr, ℕ, String, Option, none, some, Bool,
  true, false, ltb, ◌==◌,
}
use dexdeck.Common.Results.{Result, ok, ok_or_else}
use dexdeck.Storage.{StorageError, io, serialize, VersionedEnvelope}
use dexdeck.Storage.Files.{
  OnDisk, FileSystem, Json, ◌>>=◌, mapped, look, change, usable_parent, reject_unsafe_components,
  ensure_private_directory, write_json_atomic, load_json, max_local_state_bytes,
}
use dexdeck.Storage.Hoare.{
  Does, chain, mapped-Does, Leaves, Leaves-look, weaken, succeeded, change-Does,
}

-- What can be seen of a disk: the text of the file at one path, which texts a crash may leave in its
-- place, the text of a temporary file, whether that text is on the medium, and what a writer holds
-- back.
pub record Views (fs : FileSystem) : Type 1 where
  pub content : fs.Disk → Option String
  pub after_crash : fs.Disk → Option String → Type 0
  pub in_file : fs.Temporary → fs.Disk → String
  pub synced : fs.Temporary → fs.Disk → Bool
  pub buffered : fs.Writer → fs.Disk → String

module _ (fs : FileSystem) (views : Views fs) where
  -- The file has the text `c`, and a crash leaves a text with `P`.
  abbrev pub Holds : (c : Option String) (P : Option String → Type 0) → fs.Disk → Type 0
  Holds c P d = (views.content d ≡ c) × ((s : Option String) → views.after_crash d s → P s)

  -- Also, all of `s` is in the temporary file or held back for it.
  abbrev pub Handed :
      (c : Option String) (P : Option String → Type 0)
      → fs.Temporary
      → (s : String) → fs.Disk
      → Type 0
  Handed c P t s d =
      Holds c P d × (String.◌++◌ (views.in_file t d) (views.buffered (fs.new_writer t) d) ≡ s)

  -- Nothing is held back.
  abbrev pub Flushed :
      (c : Option String) (P : Option String → Type 0)
      → fs.Temporary
      → (s : String) → fs.Disk
      → Type 0
  Flushed c P t s d =
      Holds c P d × (views.in_file t d ≡ s) × (views.buffered (fs.new_writer t) d ≡ String.[])

  abbrev pub Written :
      (c : Option String) (P : Option String → Type 0)
      → fs.Temporary
      → (s : String) → fs.Disk
      → Type 0
  Written c P t s d = Holds c P d × (views.in_file t d ≡ s)

  -- The text is on the medium.
  abbrev pub Synced :
      (c : Option String) (P : Option String → Type 0)
      → fs.Temporary
      → (s : String) → fs.Disk
      → Type 0
  Synced c P t s d = Holds c P d × (views.in_file t d ≡ s) × (views.synced t d ≡ true)

  -- The text is in the file, and after a crash it may still be as before.
  abbrev pub Replaced : (P : Option String → Type 0) → (s : String) → fs.Disk → Type 0
  Replaced P s d = Holds (some s) (λ r. P r ⊎ (r ≡ some s)) d

-- What is documented of the file system, of `BufWriter` and of the JSON, as far as the file at `path`
-- is concerned: only `persist` changes its text, and at once; if the text of the temporary file is
-- on the medium, a crash then leaves the old text or the new one, and once the directory is synced
-- only the new one. A writer may hold back what it is given until it is flushed, and if something
-- is left when it is dropped, nothing is known of the temporary file.
pub record Documented (fs : FileSystem) {T : Type 0} (json : Json fs T) (path : String)
    : Type 1 where
  pub views : Views fs
  pub json_text : VersionedEnvelope T → String
  pub create_keeps :
      (directory : String) (c : Option String) (P : Option String → Type 0)
      → Does
          (Holds fs views c P)
          (fs.create_dir_all directory)
          (λ _. Holds fs views c P)
          (Holds fs views c P)
  pub directory_keeps :
      (directory : String) (c : Option String) (P : Option String → Type 0)
      → Does
          (Holds fs views c P)
          (fs.set_private_directory directory)
          (λ _. Holds fs views c P)
          (Holds fs views c P)
  pub new_keeps :
      (directory : String) (c : Option String) (P : Option String → Type 0)
      → Does
          (Holds fs views c P)
          (fs.new_in directory)
          (λ t. Flushed fs views c P t String.[])
          (Holds fs views c P)
  pub private_keeps :
      (t : fs.Temporary) (c : Option String) (P : Option String → Type 0) (s : String)
      → Does
          (Flushed fs views c P t s)
          (fs.set_private_file t)
          (λ _. Flushed fs views c P t s)
          (Holds fs views c P)
  pub to_writer_appends :
      (t : fs.Temporary) (c : Option String) (P : Option String → Type 0) (s : String)
      (v : VersionedEnvelope T)
      → Does
          (Handed fs views c P t s)
          (json.to_writer (fs.new_writer t) v)
          (λ _. Handed fs views c P t (String.◌++◌ s (json_text v)))
          (Holds fs views c P)
  pub write_appends :
      (t : fs.Temporary) (c : Option String) (P : Option String → Type 0) (s text : String)
      → Does
          (Handed fs views c P t s)
          (fs.buffer_all (fs.new_writer t) text)
          (λ _. Handed fs views c P t (String.◌++◌ s text))
          (Holds fs views c P)
  pub flush_writes :
      (t : fs.Temporary) (c : Option String) (P : Option String → Type 0) (s : String)
      → Does
          (Handed fs views c P t s)
          (fs.flush_buffer (fs.new_writer t))
          (λ _. Flushed fs views c P t s)
          (Holds fs views c P)
  pub drop_keeps :
      (t : fs.Temporary) (c : Option String) (P : Option String → Type 0) (s : String) (d : fs.Disk)
      → Flushed fs views c P t s d
      → Written fs views c P t s (fs.drop_writer (fs.new_writer t) d)
  pub sync_writes :
      (t : fs.Temporary) (c : Option String) (P : Option String → Type 0) (s : String)
      → Does
          (Written fs views c P t s)
          (fs.sync_all t)
          (λ _. Synced fs views c P t s)
          (Holds fs views c P)
  pub persist_replaces :
      (t : fs.Temporary) (c : Option String) (P : Option String → Type 0) (s : String)
      → Does
          (Synced fs views c P t s)
          (fs.persist t path)
          (λ _. Replaced fs views P s)
          (Holds fs views c P)
  pub sync_directory_settles :
      (directory : String) (P : Option String → Type 0) (s : String)
      → usable_parent fs (fs.parent path) ≡ some directory
      → Does
          (Replaced fs views P s)
          (fs.sync_directory directory)
          (λ _. Holds fs views (some s) (λ r. r ≡ some s))
          (Replaced fs views P s)
  pub read_content :
      (d : fs.Disk) (file : fs.File) (text : String)
      → fs.open_file path d ≡ ok file
      → fs.read_all file d ≡ ok text
      → views.content d ≡ some text

equal_self : (n : ℕ) → (n == n) ≡ true
equal_self n = ground arith

some_injective : {a b : String} → ◌≡◌ {A = Option String} (some a) (some b) → a ≡ b
some_injective h = cc

module _ (fs : FileSystem) {T : Type 0} (json : Json fs T) (path : String)
    (doc : Documented fs json path) where
  -- The text that a written file has: the JSON and a newline.
  abbrev pub file_text : VersionedEnvelope T → String
  file_text v = String.◌++◌ (String.◌++◌ String.[] (doc.json_text v)) "\n"

  -- What the disk of a failed write holds: the old text or the new one, now and after a crash.
  abbrev pub OldOrNew :
      (c : Option String) (P : Option String → Type 0) → VersionedEnvelope T → fs.Disk → Type 0
  OldOrNew c P v d =
      ((doc.views.content d ≡ c) ⊎ (doc.views.content d ≡ some (file_text v)))
      × ((s : Option String) → doc.views.after_crash d s → P s ⊎ (s ≡ some (file_text v)))

  still_old :
      (c : Option String) (P : Option String → Type 0) (v : VersionedEnvelope T) (d : fs.Disk)
      → Holds fs doc.views c P d
      → OldOrNew c P v d
  still_old c P v d h = (inl h.0, λ s crashed. inl (h.1 s crashed))

  already_new :
      (c : Option String) (P : Option String → Type 0) (v : VersionedEnvelope T) (d : fs.Disk)
      → Replaced fs doc.views P (file_text v) d
      → OldOrNew c P v d
  already_new c P v d h = (inr h.0, h.1)

  module _ (c : Option String) (P : Option String → Type 0) (v : VersionedEnvelope T) where
    -- A step before the file is replaced.
    before_step :
        {E A : Type 0} {Before : fs.Disk → Type 0} {After : A → fs.Disk → Type 0}
        (f : E → StorageError) (operation : OnDisk fs.Disk E A)
        → Does Before operation After (Holds fs doc.views c P)
        → Does Before (mapped f operation) After (OldOrNew c P v)
    before_step f operation h = weaken _ (still_old c P v) (mapped-Does f operation h)

    before_look :
        {A : Type 0} (r : fs.Disk → Result StorageError A)
        → Does (Holds fs doc.views c P) (look r) (λ _. Holds fs doc.views c P) (OldOrNew c P v)
    before_look r = weaken _ (still_old c P v) (λ d h. Leaves-look (r d) d h)

    -- What is found as the parent is the directory of the file.
    found_parent :
        (o : Option String) (failure : StorageError)
        → Does
            (Holds fs doc.views c P)
            (look (λ disk. ok_or_else o failure))
            (λ parent d. Holds fs doc.views c P d × (o ≡ some parent))
            (OldOrNew c P v)
    found_parent none failure d h = record { outcome = still_old c P v d h }
    found_parent (some parent) failure d h = record { outcome = (h, refl) }

    -- The steps from the end of the line on.
    persist_steps :
        (parent : String) (t : fs.Temporary)
        → usable_parent fs (fs.parent path) ≡ some parent
        → Does
            (Handed fs doc.views c P t (String.◌++◌ String.[] (doc.json_text v)))
            (do
              ended ← mapped (io path) (fs.buffer_all (fs.new_writer t) "\n")
              flushed ← mapped (io path) (fs.flush_buffer (fs.new_writer t))
              dropped ← change (fs.drop_writer (fs.new_writer t))
              synced ← mapped (io path) (fs.sync_all t)
              persisted ← mapped (io path) (fs.persist t path)
              mapped (io parent) (fs.sync_directory parent))
            (λ _. Holds fs doc.views (some (file_text v)) (λ r. r ≡ some (file_text v)))
            (OldOrNew c P v)
    persist_steps parent t is_parent =
        chain _ _ (before_step (io path) _ (doc.write_appends t c P _ "\n")) (λ ended.
          chain _ _ (before_step (io path) _ (doc.flush_writes t c P (file_text v))) (λ flushed.
            chain _ _ (change-Does _ (doc.drop_keeps t c P (file_text v))) (λ dropped.
              chain _ _ (before_step (io path) _ (doc.sync_writes t c P (file_text v))) (λ synced.
                chain _ _ (before_step (io path) _ (doc.persist_replaces t c P (file_text v)))
                  (λ persisted. weaken _ (already_new c P v) (
                    mapped-Does (io parent) _
                      (doc.sync_directory_settles parent P (file_text v) is_parent)))))))

    -- A new temporary file is empty, and so is its writer.
    new-Handed :
        (t : fs.Temporary) (d : fs.Disk)
        → Flushed fs doc.views c P t String.[] d
        → Handed fs doc.views c P t String.[] d
    new-Handed t d (holds, empty, nothing) = (holds, rw (empty, nothing) refl)

    -- The steps from the new temporary file on.
    temporary_steps :
        (parent : String)
        → usable_parent fs (fs.parent path) ≡ some parent
        → Does
            (Holds fs doc.views c P)
            (do
              temporary ← mapped (io parent) (fs.new_in parent)
              protected ← mapped (io (fs.temporary_path temporary)) (fs.set_private_file temporary)
              let writer = fs.new_writer temporary
              serialized ← mapped (serialize path) (json.to_writer writer v)
              ended ← mapped (io path) (fs.buffer_all writer "\n")
              flushed ← mapped (io path) (fs.flush_buffer writer)
              dropped ← change (fs.drop_writer writer)
              synced ← mapped (io path) (fs.sync_all temporary)
              persisted ← mapped (io path) (fs.persist temporary path)
              mapped (io parent) (fs.sync_directory parent))
            (λ _. Holds fs doc.views (some (file_text v)) (λ r. r ≡ some (file_text v)))
            (OldOrNew c P v)
    temporary_steps parent is_parent =
        chain _ _ (before_step (io parent) _ (doc.new_keeps parent c P)) (λ t.
          chain _ _ (before_step _ _ (doc.private_keeps t c P String.[])) (λ protected.
            chain _ _
              (λ d h.
                before_step (serialize path) _ (doc.to_writer_appends t c P String.[] v) d
                  (new-Handed t d h))
              (λ serialized. persist_steps parent t is_parent)))

    -- The steps together, from a disk on which the file has the text `c`, or none.
    write_json_atomic-Does :
        Does
          (Holds fs doc.views c P)
          (write_json_atomic fs json path v)
          (λ _. Holds fs doc.views (some (file_text v)) (λ r. r ≡ some (file_text v)))
          (OldOrNew c P v)
    unfolding write_json_atomic ensure_private_directory
    write_json_atomic-Does = chain _ _ (before_look (reject_unsafe_components fs path)) (λ safe.
        chain _ _ (found_parent _ _) (λ parent disk found.
          chain _ _
            (chain _ _ (before_step (io parent) _ (doc.create_keeps parent c P))
              (λ created. before_step (io parent) _ (doc.directory_keeps parent c P)))
            (λ private. temporary_steps parent found.1) disk found.0))

  -- On a disk that does as documented, a write that succeeds leaves the whole new text in the file,
  -- and a crash then leaves it there; one that fails, at whichever of its steps, leaves the file as it
  -- was before or with the whole new text, and so does a crash, or it leaves a text that it could
  -- have left before the write.
  pub write_json_atomic-Leaves :
      (v : VersionedEnvelope T) (before : fs.Disk)
      → Leaves
          (λ _ d.
            (doc.views.content d ≡ some (file_text v))
            × ((s : Option String) → doc.views.after_crash d s → s ≡ some (file_text v)))
          (OldOrNew (doc.views.content before) (doc.views.after_crash before) v)
          (write_json_atomic fs json path v before)
  write_json_atomic-Leaves v before =
      write_json_atomic-Does (doc.views.content before) (doc.views.after_crash before) v before
        (refl, λ s crashed. crashed)

  -- What `from_reader` is documented to do with what `to_writer` writes of a value.
  abbrev pub ReadsBack : VersionedEnvelope T → Type 0
  ReadsBack v = json.from_reader (ok (String.◌++◌ (doc.json_text v) "\n")) ≡ ok v

  -- What has been written is loaded, on a disk that does as documented: if the JSON of a value is
  -- read back as the value, writing it under the schema that is expected succeeds, and the file can
  -- then be looked up, opened and read and is no larger than 64 MiB, loading returns the value.
  pub load_json-write_json_atomic :
      (expected : ℕ) (value : T) (before after : fs.Disk) (file : fs.File) (text : String)
      (size : ℕ)
      → ReadsBack (record { schema_version = expected; data_of = value })
      → write_json_atomic fs json path
          (record { schema_version = expected; data_of = value })
          before
        ≡ (ok tt, after)
      → reject_unsafe_components fs path after ≡ ok tt
      → fs.open_file path after ≡ ok file
      → fs.file_len file after ≡ ok size
      → fs.read_all file after ≡ ok text
      → size ≤ max_local_state_bytes
      → load_json fs json path expected after ≡ (ok (some value), after)
  unfolding load_json
  load_json-write_json_atomic expected value before after file text size back wrote safe opened
        sized reads fits =
      rw (safe, opened, sized, small, reads, decoded, equal_self expected) refl
    where
      same : text ≡ file_text (record { schema_version = expected; data_of = value })
      same = some_injective (
          sym (doc.read_content after file text opened reads)
          ∙ (succeeded _ (write_json_atomic-Leaves _ before) wrote).0)

      decoded :
          json.from_reader (ok text) ≡ ok (record { schema_version = expected; data_of = value })
      decoded =
          subst
            (λ t.
              json.from_reader (ok t) ≡ ok (record { schema_version = expected; data_of = value }))
            (sym (same ∙ ap (λ j. String.◌++◌ j "\n") (append.nil (doc.json_text _)))) back

      small : ltb max_local_state_bytes size ≡ false
      small = ground arith
