-- ===== src/Logcat/Capture.antt =====
-- crates/dexdeck-android/src/logcat.rs: what becomes of the records of one read while a device's log
-- is captured. The sets and maps of the selection are lists. Arguments: the channel of `tokio`
-- (`try_send` gives the channel after a message, or nothing if it is full or closed), and the
-- decimal form of a number.
use Prim.Native.String
use Prim.Native.String.{len}
use dexdeck.Common.{
  ℕ, ◌+◌, ◌*◌, String, String-discrete, Option, none, some, Bool, true, false, not, ◌&&◌, ◌||◌,
  List, [], ◌∷◌, ◌++◌, length, ltb, leb, ◌==◌, if◌then◌else◌, saturating_add, decide, lookup,
  contains, insert_set, remove_all, ℕ_discrete,
}
use dexdeck.Config.{LogScope, application, device}
use dexdeck.Protocol.Log.{LogRecord, LogPriority, verbose, debug, info, warning, error, fatal}
use dexdeck.Logcat.{Decoding, LogcatParser, push}

abbrev pub recent_limit : ℕ
recent_limit = 4096

abbrev pub logcat_batch_records : ℕ
logcat_batch_records = 256

abbrev pub logcat_batch_bytes : ℕ
logcat_batch_bytes = 64 * 1024

pub data LogProcessSelector : Type 0 where
  name : String → LogProcessSelector
  pid : ℕ → LogProcessSelector

pub record LogcatStatus : Type 0 where
  pub connected : Bool
  pub reconnects : ℕ
  pub batches_sent : ℕ
  pub batches_dropped : ℕ
  pub records_sent : ℕ
  pub records_dropped : ℕ
  pub tracked_processes : ℕ
  pub last_error : Option String

pub record LogcatSelection : Type 0 where
  pub scope : LogScope
  pub process : Option LogProcessSelector

pub record ProcessSnapshot : Type 0 where
  pub uid : Option ℕ
  pub names : List (ℕ × String)

-- The variables of `capture`, and its channel.
pub record Capture (Channel : Type 0) : Type 0 where
  pub parser : LogcatParser
  pub last_timestamp : Option String
  pub recent : List String
  pub recent_set : List String
  pub batch : List LogRecord
  pub batch_bytes : ℕ
  pub status : LogcatStatus
  pub channel : Channel

abbrev is_some : {A : Type 0} → Option A → Bool
is_some none = false
is_some (some _) = true

abbrev equals : Option String → String → Bool
equals none text = false
equals (some t) text = decide (String-discrete t text)

abbrev package_is : LogRecord → Option String → Bool
package_is r none = false
package_is r (some app_package) = equals r.package_name app_package

-- `snapshot.uid.is_some() && record.user_id == snapshot.uid`.
abbrev same_user : Option ℕ → Option ℕ → Bool
same_user none user = false
same_user (some uid) none = false
same_user (some uid) (some user) = user == uid

abbrev renamed : LogRecord → (app_package : Option String) → Option String → LogRecord
renamed r app_package none = r
renamed r app_package (some process) = record r {
  process = some process;
  package_name = app_package;
}

unfoldable pub enrich_record :
    LogRecord → (app_package : Option String) → ProcessSnapshot → LogRecord
enrich_record r app_package snapshot =
    renamed r app_package (lookup ℕ_discrete r.process_id snapshot.names)

abbrev in_scope : LogScope → LogRecord → (app_package : Option String) → ProcessSnapshot → Bool
in_scope device r app_package snapshot = true
in_scope application r app_package snapshot =
    is_some (lookup ℕ_discrete r.process_id snapshot.names)
    || package_is r app_package
    || same_user snapshot.uid r.user_id

abbrev selects : Option LogProcessSelector → LogRecord → Bool
selects none r = true
selects (some (pid p)) r = r.process_id == p
selects (some (name n)) r = equals r.process n

unfoldable pub matches_selection :
    LogRecord → LogcatSelection → (app_package : Option String) → ProcessSnapshot → Bool
matches_selection r selection app_package snapshot =
    if not (in_scope selection.scope r app_package snapshot)
    then false
    else selects selection.process r

abbrev debug_name : LogPriority → String
debug_name verbose = "Verbose"
debug_name debug = "Debug"
debug_name info = "Info"
debug_name warning = "Warning"
debug_name error = "Error"
debug_name fatal = "Fatal"

abbrev then_nul : String → String → String
then_nul a b = String.◌++◌ a (String.◌++◌ "\0" b)

unfoldable pub dedup_key : (decimal : ℕ → String) → LogRecord → String
dedup_key decimal r = then_nul r.timestamp (
    then_nul (decimal r.process_id) (
      then_nul (decimal r.thread_id) (then_nul (debug_name r.priority) (then_nul r.tag r.message))))

abbrev pub log_record_bytes : LogRecord → ℕ
log_record_bytes r = len r.timestamp + len r.tag + len r.message + 64

-- `if recent.len() > 4096 && let Some(expired) = recent.pop_front()`.
abbrev pub expire : List String → List String → List String × List String
expire [] recent_set = ([], recent_set)
expire (oldest ∷ recent) recent_set =
    if ltb recent_limit (length (oldest ∷ recent))
    then (recent, remove_all String-discrete oldest recent_set)
    else (oldest ∷ recent, recent_set)

-- The window after a new key.
unfoldable pub remember : String → List String → List String → List String × List String
remember key recent recent_set =
    expire (recent ++ key ∷ []) (insert_set String-discrete key recent_set)

module _ {Channel : Type 0} (try_send : Channel → List LogRecord → Option Channel) where
  abbrev pub sent : Capture Channel → (count : ℕ) → Option Channel → Capture Channel
  sent c count (some channel) = record c {
    batch = [];
    batch_bytes = 0;
    channel = channel;
    status = record c.status {
      batches_sent = saturating_add c.status.batches_sent 1;
      records_sent = saturating_add c.status.records_sent count;
    };
  }
  sent c count none = record c {
    batch = [];
    batch_bytes = 0;
    status = record c.status {
      batches_dropped = saturating_add c.status.batches_dropped 1;
      records_dropped = saturating_add c.status.records_dropped count;
    };
  }

  abbrev pub send_batch : Capture Channel → List LogRecord → Capture Channel
  send_batch c [] = c
  send_batch c (r ∷ rs) = sent c (length (r ∷ rs)) (try_send c.channel (r ∷ rs))

  unfoldable pub flush_batch : Capture Channel → Capture Channel
  flush_batch c = send_batch c c.batch

  unfoldable pub flush_if_full : Capture Channel → Capture Channel
  unfolding flush_batch
  flush_if_full c =
      if leb logcat_batch_records (length c.batch) || leb logcat_batch_bytes c.batch_bytes
      then flush_batch c
      else c

  -- The record goes to the batch, its key to the window.
  abbrev pub add_to_batch : Capture Channel → LogRecord → (key : String) → Capture Channel
  add_to_batch c r key =
      let (recent, recent_set) = remember key c.recent c.recent_set in
      record c {
        recent = recent;
        recent_set = recent_set;
        batch_bytes = saturating_add c.batch_bytes (log_record_bytes r);
        batch = c.batch ++ r ∷ [];
      }

  module _ (decimal : ℕ → String) (app_package : Option String) (selection : LogcatSelection)
      (snapshot : ProcessSnapshot) where
    -- Whether a record that was read is new to the batch.
    abbrev pub is_new : Capture Channel → LogRecord → Bool
    is_new c r =
        let enriched = enrich_record r app_package snapshot in
        matches_selection enriched selection app_package snapshot
        && not (contains String-discrete (dedup_key decimal enriched) c.recent_set)

    unfoldable pub take_record : Capture Channel → LogRecord → Capture Channel
    unfolding flush_batch
    take_record c r =
        let enriched = enrich_record r app_package snapshot in
        if not (matches_selection enriched selection app_package snapshot)
        then c
        else (let seen = record c { last_timestamp = some enriched.timestamp } in
            let key = dedup_key decimal enriched in
            if contains String-discrete key c.recent_set
            then seen
            else flush_if_full (add_to_batch seen enriched key))

    unfoldable pub take_records : Capture Channel → List LogRecord → Capture Channel
    take_records c [] = c
    take_records c (r ∷ rs) = take_records (take_record c r) rs

    -- One read of the output.
    unfoldable pub read_chunk : Decoding → Capture Channel → List ℕ → Capture Channel
    read_chunk decoding c chunk =
        let (parser, rs) = push decoding c.parser chunk in
        take_records (record c { parser = parser }) rs
