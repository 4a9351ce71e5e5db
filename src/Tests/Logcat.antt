-- ===== src/Tests/Logcat.antt =====
-- Lines in which each character stands for itself.
use dexdeck.Common.{
  ◌≡◌, ◌≢◌, refl, arith, ℕ, String, Option, none, some, true, List, [], ◌∷◌, ◌++◌, All, lookup,
  contains, insert_set, String-discrete, text_dec, decide, ℕ_discrete,
}
use dexdeck.Config.{application}
use dexdeck.Protocol.Log.{LogRecord}
use dexdeck.Logcat.{Decoding, Captures, letter_e, max_logcat_line_bytes, new_parser, push}
use dexdeck.Logcat.Chunks.{push_chunks}
use dexdeck.Logcat.Held.{Held, push_chunks-Held}
use dexdeck.Logcat.Lines.{line_start, parse_lines, push-unlines}
use dexdeck.Logcat.Capture.{
  Capture, LogcatSelection, ProcessSnapshot, LogcatStatus, take_records, take_record, enrich_record,
  matches_selection, dedup_key, remember, flush_if_full, flush_batch,
}
use dexdeck.Logcat.Window.{Watched, take_records-Watched}
use dexdeck.Logcat.Accounting.{Receives, Counted, new_records, take_records-accounted}
use dexdeck.Tests.Fixtures.{log_record}

abbrev captured : Captures
captured = record {
  timestamp = "noon";
  uid = none;
  pid = "1";
  tid = "1";
  priority = letter_e;
  tag = "App";
  message = "one";
}

abbrev decoding : Decoding
decoding = record {
  captures = λ _. some captured;
  is_utf8 = λ _. true;
  from_utf8_lossy = λ _. "x";
  parse_u32 = λ _. some 1;
  trim = λ text. text;
}

new_parser-Held : Held [] new_parser
unfolding max_logcat_line_bytes
new_parser-Held = record { collected = refl; marked = refl }

push_chunks-Held_example :
    Held (66 ∷ []) (push_chunks decoding new_parser ((65 ∷ []) ∷ (67 ∷ 10 ∷ []) ∷ (66 ∷ []) ∷ [])).0
push_chunks-Held_example =
    push_chunks-Held decoding new_parser [] ((65 ∷ []) ∷ (67 ∷ 10 ∷ []) ∷ (66 ∷ []) ∷ [])
      new_parser-Held

no_newlines : All (λ line. All (λ (byte : ℕ). byte ≢ 10) line) ((65 ∷ 66 ∷ []) ∷ (67 ∷ []) ∷ [])
no_newlines = (
  ((λ e. absurd (omega (arith, e))), ((λ e. absurd (omega (arith, e))), tt)),
  (((λ e. absurd (omega (arith, e))), tt), tt),
)

push-unlines_example :
    push decoding (line_start new_parser) (65 ∷ 66 ∷ 10 ∷ 67 ∷ 10 ∷ [])
    ≡ parse_lines decoding new_parser ((65 ∷ 66 ∷ []) ∷ (67 ∷ []) ∷ [])
push-unlines_example =
    push-unlines decoding new_parser ((65 ∷ 66 ∷ []) ∷ (67 ∷ []) ∷ []) no_newlines

-- A channel that has room for so many messages, with what it has taken.
abbrev Mailbox : Type 0
Mailbox = ℕ × List LogRecord

abbrev try_send : Mailbox → List LogRecord → Option Mailbox
try_send (ℕ.zero, taken) batch = none
try_send (ℕ.suc room, taken) batch = some (room, taken ++ batch)

abbrev received : Mailbox → List LogRecord
received channel = channel.1

receives : Receives try_send received
receives (ℕ.zero, taken) after batch h = cc
receives (ℕ.suc room, taken) after batch h = cc

abbrev no_status : LogcatStatus
no_status = record {
  connected = true;
  reconnects = 0;
  batches_sent = 0;
  batches_dropped = 0;
  records_sent = 0;
  records_dropped = 0;
  tracked_processes = 1;
  last_error = none;
}

abbrev capture : Capture Mailbox
capture = record {
  parser = new_parser;
  last_timestamp = none;
  recent = [];
  recent_set = [];
  batch = [];
  batch_bytes = 0;
  status = no_status;
  channel = (1, []);
}

abbrev selection : LogcatSelection
selection = record { scope = application; process = none }

abbrev snapshot : ProcessSnapshot
snapshot = record { uid = none; names = (1, "app") ∷ [] }

abbrev decimal : ℕ → String
decimal _ = "1"

abbrev read_records : List LogRecord
read_records = log_record "one" ∷ log_record "one" ∷ log_record "two" ∷ []

capture-Watched : Watched capture
capture-Watched = record { distinct = tt; same_keys = λ key. refl; bounded = omega arith }

take_records-Watched_example :
    Watched (take_records try_send decimal (some "app") selection snapshot capture read_records)
take_records-Watched_example =
    take_records-Watched try_send decimal (some "app") selection snapshot capture read_records
      capture-Watched

two_new :
    new_records try_send received receives decimal
      (some "app")
      selection
      snapshot
      capture
      read_records
    ≡ 2
unfolding new_records take_record enrich_record matches_selection dedup_key lookup contains
    insert_set remember flush_if_full flush_batch String-discrete text_dec decide ℕ_discrete
two_new = refl

take_records-accounted_example :
    Counted received
      (new_records try_send received receives decimal
        (some "app")
        selection
        snapshot
        capture
        read_records)
      capture
      (take_records try_send decimal (some "app") selection snapshot capture read_records)
take_records-accounted_example =
    take_records-accounted try_send received receives decimal (some "app") selection snapshot
      capture read_records (omega (arith, two_new))
