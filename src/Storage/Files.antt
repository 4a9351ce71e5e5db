-- ===== src/Storage/Files.antt =====
-- crates/dexdeck-config/src/atomic.rs: files that are written whole or not at all. Arguments: the
-- file system with the `tempfile` crate (`FileSystem`), `serde_json` (`Json`), and the text that
-- `thiserror` derives for a failure. Each operation on the disk returns the disk after it, also when
-- it fails. The modes of files and directories are for a system that has them.

use dexdeck.Common.{
  ℕ, ◌*◌, String, Option, none, some, Bool, true, false, List, [], ◌∷◌, if◌then◌else◌, ltb, ◌==◌,
}
use dexdeck.Common.Results.{Result, ok, err, map_err, ok_or_else}
use dexdeck.Storage.{
  not_found, invalid_input, other, IoError, StorageError, io, serialize, unsafe_path,
  file_too_large, unsupported_schema, corrupt_data, platform_directories_unavailable,
  VersionedEnvelope,
}

-- 64 MiB.
abbrev pub max_local_state_bytes : ℕ
max_local_state_bytes = 64 * 1024 * 1024

pub data RecoveredFile (T : Type 0) : Type 0 where
  missing : RecoveredFile T
  loaded : T → RecoveredFile T
  corrupt : (quarantined_path : Option String) (message : String) → RecoveredFile T

-- An operation on a disk that can fail.
abbrev pub OnDisk : (Disk E A : Type 0) → Type 0
OnDisk Disk E A = Disk → Result E A × Disk

-- `Disk` is all that an operation may change: the files, and what a writer holds back.
pub record FileSystem : Type 1 where
  pub Disk : Type 0
  pub Temporary : Type 0
  pub Writer : Type 0
  pub File : Type 0
  pub ancestors : String → List String
  pub parent : String → Option String
  -- Whether there is a symbolic link.
  pub symlink_metadata : String → Disk → Result IoError Bool
  pub create_dir_all : String → OnDisk Disk IoError (Unit {0})
  pub set_private_directory : String → OnDisk Disk IoError (Unit {0})
  pub new_in : String → OnDisk Disk IoError Temporary
  pub set_private_file : Temporary → OnDisk Disk IoError (Unit {0})
  pub temporary_path : Temporary → String
  -- A temporary file written without a buffer.
  pub write_all : Temporary → String → OnDisk Disk IoError (Unit {0})
  pub flush : Temporary → OnDisk Disk IoError (Unit {0})
  -- `BufWriter::new`, its `write_all` and `flush`, and its drop, which ignores a failure.
  pub new_writer : Temporary → Writer
  pub buffer_all : Writer → String → OnDisk Disk IoError (Unit {0})
  pub flush_buffer : Writer → OnDisk Disk IoError (Unit {0})
  pub drop_writer : Writer → Disk → Disk
  pub sync_all : Temporary → OnDisk Disk IoError (Unit {0})
  pub persist : Temporary → String → OnDisk Disk IoError (Unit {0})
  pub sync_directory : String → OnDisk Disk IoError (Unit {0})
  pub open_file : String → Disk → Result IoError File
  pub file_len : File → Disk → Result IoError ℕ
  -- All of the file, or the failure that ends the reading.
  pub read_all : File → Disk → Result IoError String
  pub rename : String → String → OnDisk Disk IoError (Unit {0})
  -- The path with the ending `.corrupt-` and a time in milliseconds, in the same directory.
  pub corrupt_name : String → ℕ → String

-- `to_writer` writes to a buffered writer; `from_reader` is given what reading comes to.
pub record Json (fs : FileSystem) (T : Type 0) : Type 0 where
  pub to_writer : fs.Writer → VersionedEnvelope T → OnDisk fs.Disk String (Unit {0})
  pub from_reader : Result IoError String → Result String (VersionedEnvelope T)

module _ {Disk : Type 0} where
  abbrev pub continue_with :
      {A B : Type 0}
      → (A → OnDisk Disk StorageError B)
      → Result StorageError A × Disk
      → Result StorageError B × Disk
  continue_with later (ok a, disk) = later a disk
  continue_with later (err failure, disk) = (err failure, disk)

  infixl 5 ◌>>=◌
  abbrev pub ◌>>=◌ :
      {A B : Type 0}
      → OnDisk Disk StorageError A
      → (A → OnDisk Disk StorageError B)
      → OnDisk Disk StorageError B
  (first >>= later) disk = continue_with later (first disk)

  -- `.map_err(…)?` on an operation.
  abbrev pub renamed :
      {A E : Type 0} → (E → StorageError) → Result E A × Disk → Result StorageError A × Disk
  renamed f (r, disk) = (map_err f r, disk)

  abbrev pub mapped :
      {A E : Type 0} → (E → StorageError) → OnDisk Disk E A → OnDisk Disk StorageError A
  mapped f operation disk = renamed f (operation disk)

  -- What cannot fail.
  abbrev pub change : (Disk → Disk) → OnDisk Disk StorageError (Unit {0})
  change f disk = (ok tt, f disk)

  -- What only looks at the disk.
  abbrev pub look : {A : Type 0} → (Disk → Result StorageError A) → OnDisk Disk StorageError A
  look r disk = (r disk, disk)

module _ (fs : FileSystem) where
  abbrev pub checked_component :
      String → Result IoError Bool → Result StorageError (Unit {0}) → Result StorageError (Unit {0})
  checked_component component (ok true) rest = err (unsafe_path component)
  checked_component component (ok false) rest = rest
  checked_component component (err e) rest = elim e.kind [
    | not_found ↦ rest
    | invalid_input ↦ err (io component e)
    | other ↦ err (io component e)
  ]

  abbrev pub reject_components : List String → fs.Disk → Result StorageError (Unit {0})
  reject_components [] disk = ok tt
  reject_components (String.[] ∷ later) disk = reject_components later disk
  reject_components (String.◌∷◌ c rest ∷ later) disk =
      checked_component (String.◌∷◌ c rest) (fs.symlink_metadata (String.◌∷◌ c rest) disk)
        (reject_components later disk)

  -- On a system without the aliases of macOS.
  unfoldable pub reject_unsafe_components : String → fs.Disk → Result StorageError (Unit {0})
  reject_unsafe_components path disk = reject_components (fs.ancestors path) disk

  abbrev dot_if_empty : String → String
  dot_if_empty String.[] = "."
  dot_if_empty (String.◌∷◌ c rest) = String.◌∷◌ c rest

  abbrev pub usable_parent : Option String → Option String
  usable_parent none = none
  usable_parent (some parent) = some (dot_if_empty parent)

  abbrev no_parent : String → StorageError
  no_parent path = io path (record { kind = invalid_input; text = "path has no parent" })

  unfoldable pub ensure_private_directory : String → OnDisk fs.Disk StorageError (Unit {0})
  ensure_private_directory path = do
    created ← mapped (io path) (fs.create_dir_all path)
    mapped (io path) (fs.set_private_directory path)

  unfoldable pub write_json_atomic :
      {T : Type 0}
      → Json fs T
      → (path : String) → VersionedEnvelope T
      → OnDisk fs.Disk StorageError (Unit {0})
  write_json_atomic json path value = do
    safe ← look (reject_unsafe_components path)
    parent ← look (λ disk. ok_or_else (usable_parent (fs.parent path)) (no_parent path))
    private ← ensure_private_directory parent
    temporary ← mapped (io parent) (fs.new_in parent)
    protected ← mapped (io (fs.temporary_path temporary)) (fs.set_private_file temporary)
    let writer = fs.new_writer temporary
    serialized ← mapped (serialize path) (json.to_writer writer value)
    ended ← mapped (io path) (fs.buffer_all writer "\n")
    flushed ← mapped (io path) (fs.flush_buffer writer)
    dropped ← change (fs.drop_writer writer)
    synced ← mapped (io path) (fs.sync_all temporary)
    persisted ← mapped (io path) (fs.persist temporary path)
    mapped (io parent) (fs.sync_directory parent)

  unfoldable pub write_text_atomic : (path text : String) → OnDisk fs.Disk StorageError (Unit {0})
  write_text_atomic path text = do
    safe ← look (reject_unsafe_components path)
    parent ← look (λ disk. ok_or_else (usable_parent (fs.parent path)) (no_parent path))
    created ← mapped (io parent) (fs.create_dir_all parent)
    temporary ← mapped (io parent) (fs.new_in parent)
    written ← mapped (io path) (fs.write_all temporary text)
    flushed ← mapped (io path) (fs.flush temporary)
    synced ← mapped (io path) (fs.sync_all temporary)
    persisted ← mapped (io path) (fs.persist temporary path)
    mapped (io parent) (fs.sync_directory parent)

  abbrev size_checked : (path : String) (size : ℕ) → Result StorageError (Unit {0})
  size_checked path size =
      if ltb max_local_state_bytes size
      then err (file_too_large path size max_local_state_bytes)
      else ok tt

  abbrev schema_checked :
      {T : Type 0}
      → (path : String) (expected : ℕ) → VersionedEnvelope T
      → Result StorageError (Option T)
  schema_checked path expected envelope =
      if envelope.schema_version == expected
      then ok (some envelope.data_of)
      else err (unsupported_schema path expected envelope.schema_version)

  abbrev pub read_json :
      {T : Type 0}
      → Json fs T
      → (path : String) (expected : ℕ) → Result IoError fs.File
      → OnDisk fs.Disk StorageError (Option T)
  read_json json path expected (ok file) = do
    size ← look (λ disk. map_err (io path) (fs.file_len file disk))
    fits ← look (λ disk. size_checked path size)
    envelope ← look (λ disk. map_err (corrupt_data path) (json.from_reader (fs.read_all file disk)))
    look (λ disk. schema_checked path expected envelope)
  read_json json path expected (err e) = look (λ disk. elim e.kind [
    | not_found ↦ ok none
    | invalid_input ↦ err (io path e)
    | other ↦ err (io path e)
  ])

  unfoldable pub load_json :
      {T : Type 0}
      → Json fs T
      → (path : String) (expected_schema_version : ℕ) → OnDisk fs.Disk StorageError (Option T)
  load_json json path expected = do
    safe ← look (reject_unsafe_components path)
    (λ disk. read_json json path expected (fs.open_file path disk) disk)

  unfoldable pub quarantine : (path : String) (now : ℕ) → OnDisk fs.Disk StorageError String
  quarantine path now = do
    renamed_to ← mapped (io path) (fs.rename path (fs.corrupt_name path now))
    look (λ disk. ok (fs.corrupt_name path now))

  abbrev pub after_quarantine :
      {T : Type 0}
      → (message : String) → Result StorageError String × fs.Disk
      → Result StorageError (RecoveredFile T) × fs.Disk
  after_quarantine message (ok path, disk) = (ok (corrupt (some path) message), disk)
  after_quarantine message (err failure, disk) = (ok (corrupt none message), disk)

  module _ (display : StorageError → String) (now : ℕ) where
    abbrev pub recovered :
        {T : Type 0}
        → (path : String) → Result StorageError (Option T) × fs.Disk
        → Result StorageError (RecoveredFile T) × fs.Disk
    recovered path (ok (some value), disk) = (ok (loaded value), disk)
    recovered path (ok none, disk) = (ok missing, disk)
    recovered path (err (corrupt_data at message), disk) =
        after_quarantine (display (corrupt_data at message)) (quarantine path now disk)
    recovered path (err (unsupported_schema at expected found), disk) =
        after_quarantine (display (unsupported_schema at expected found)) (quarantine path now disk)
    recovered path (err platform_directories_unavailable, disk) =
        (err platform_directories_unavailable, disk)
    recovered path (err (unsafe_path at), disk) = (err (unsafe_path at), disk)
    recovered path (err (file_too_large at size maximum), disk) =
        (err (file_too_large at size maximum), disk)
    recovered path (err (serialize at source), disk) = (err (serialize at source), disk)
    recovered path (err (io at source), disk) = (err (io at source), disk)

    unfoldable pub load_json_recovering :
        {T : Type 0}
        → Json fs T
        → (path : String) (expected_schema_version : ℕ)
        → OnDisk fs.Disk StorageError (RecoveredFile T)
    load_json_recovering json path expected disk =
        recovered path (load_json json path expected disk)
