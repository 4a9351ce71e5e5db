-- ===== src/Storage.antt =====
-- crates/dexdeck-config/src/error.rs and envelope.rs: the failures of stored state and its
-- envelope. An `std::io::Error` is its kind, as far as the sources ask for it, and its text; a path
-- is its text; an error of `serde_json` is its text.
pub mod Files
pub mod Hoare
pub mod Atomic
pub mod JobHistory
pub mod Session
use dexdeck.Common.{ℕ, String}

pub data ErrorKind : Type 0 where
  not_found invalid_input other : ErrorKind

pub record IoError : Type 0 where
  pub kind : ErrorKind
  pub text : String

pub data StorageError : Type 0 where
  platform_directories_unavailable : StorageError
  unsafe_path : (path : String) → StorageError
  file_too_large : (path : String) (size maximum : ℕ) → StorageError
  unsupported_schema : (path : String) (expected found : ℕ) → StorageError
  corrupt_data : (path message : String) → StorageError
  serialize : (path source : String) → StorageError
  io : (path : String) (source : IoError) → StorageError

pub record VersionedEnvelope {ℓ} (T : Type ℓ) : Type ℓ where
  pub schema_version : ℕ
  pub data_of : T
