-- ===== src/Logcat.antt =====
-- crates/dexdeck-android/src/logcat.rs: the parser of what `adb logcat` writes. A byte is its
-- number. Arguments: what the regular expression of a line captures, the UTF-8 of the standard
-- library, its `parse` of a `u32`, and `trim`.
pub mod Chunks
pub mod Lines
pub mod Held
pub mod Capture
pub mod Window
pub mod Accounting
use Prim.Native.String
use dexdeck.Common.{
  ℕ, zero, ◌*◌, String, String-discrete, Option, none, some, Bool, true, false, not, ◌&&◌, ◌||◌,
  List, [], ◌∷◌, ◌++◌, map, length, ◌==◌, ltb, if◌then◌else◌, saturating_add, decide,
}
use dexdeck.Common.Text.{codes, ascii_lower, contains_codes}
use dexdeck.Protocol.Log.{
  LogRecord, LogPriority, verbose, debug, info, warning, error, fatal, LogMarkerKind, java_crash,
  native_crash, anr,
}

unfoldable pub max_logcat_line_bytes : ℕ
max_logcat_line_bytes = 256 * 1024

pub record ParserStats : Type 0 where
  pub physical_lines : ℕ
  pub records : ℕ
  pub malformed_lines : ℕ
  pub invalid_utf8_lines : ℕ
  pub oversized_lines : ℕ
  pub truncated_lines : ℕ
  pub restart_boundaries : ℕ

pub record LogcatParser : Type 0 where
  pub partial : List ℕ
  pub discarding_oversized : Bool
  pub previous : Option LogRecord
  pub next_group_id : ℕ
  pub stats : ParserStats

abbrev no_stats : ParserStats
no_stats = record {
  physical_lines = 0;
  records = 0;
  malformed_lines = 0;
  invalid_utf8_lines = 0;
  oversized_lines = 0;
  truncated_lines = 0;
  restart_boundaries = 0;
}

abbrev pub new_parser : LogcatParser
new_parser = record {
  partial = [];
  discarding_oversized = false;
  previous = none;
  next_group_id = 1;
  stats = no_stats;
}

abbrev holds_marker : String → String → Bool
holds_marker part text = contains_codes (map ascii_lower (codes text)) (codes part)

-- The text is `name`, in any case.
abbrev is_lower_of : String → String → Bool
is_lower_of name text = same (map ascii_lower (codes text)) (codes name)
  where
    same : List ℕ → List ℕ → Bool
    same [] [] = true
    same (c ∷ s) (d ∷ t) = c == d && same s t
    same [] (_ ∷ _) = false
    same (_ ∷ _) [] = false

unfoldable pub marker_for : (tag message : String) → Option LogMarkerKind
marker_for tag message =
    if holds_marker "fatal exception" message || holds_marker "uncaught exception" message
    then some java_crash
    else if (is_lower_of "debug" tag
          && (holds_marker "fatal signal" message || holds_marker "backtrace:" message))
        || is_lower_of "crash_dump64" tag
        || is_lower_of "crash_dump32" tag
    then some native_crash
    else if holds_marker "anr in " message || holds_marker "am_anr" message
    then some anr
    else none

-- The letters that the expression lets through.
pub data PriorityLetter : Type 0 where
  letter_v letter_d letter_i letter_w letter_e letter_f : PriorityLetter

abbrev priority_of : PriorityLetter → LogPriority
priority_of letter_v = verbose
priority_of letter_d = debug
priority_of letter_i = info
priority_of letter_w = warning
priority_of letter_e = error
priority_of letter_f = fatal

-- The named groups of the expression.
pub record Captures : Type 0 where
  pub timestamp : String
  pub uid : Option String
  pub pid : String
  pub tid : String
  pub priority : PriorityLetter
  pub tag : String
  pub message : String

pub record Decoding : Type 0 where
  pub captures : String → Option Captures
  pub is_utf8 : List ℕ → Bool
  pub from_utf8_lossy : List ℕ → String
  pub parse_u32 : String → Option ℕ
  pub trim : String → String

abbrev is_some : {A : Type 0} → Option A → Bool
is_some none = false
is_some (some _) = true

abbrev strip_carriage_return : List ℕ → List ℕ
strip_carriage_return [] = []
strip_carriage_return (b ∷ []) = if b == 13 then [] else b ∷ []
strip_carriage_return (b ∷ c ∷ rest) = b ∷ strip_carriage_return (c ∷ rest)

abbrev unwrap_or_zero : Option ℕ → ℕ
unwrap_or_zero none = 0
unwrap_or_zero (some n) = n

-- The counts at the start of a line.
abbrev count_line : ParserStats → (oversized invalid_utf8 : Bool) → ParserStats
count_line s oversized invalid_utf8 = record s {
  physical_lines = saturating_add s.physical_lines 1;
  oversized_lines = if oversized then saturating_add s.oversized_lines 1 else s.oversized_lines;
  truncated_lines = if oversized then saturating_add s.truncated_lines 1 else s.truncated_lines;
  invalid_utf8_lines =
      if invalid_utf8 then saturating_add s.invalid_utf8_lines 1 else s.invalid_utf8_lines;
}

module _ (decoding : Decoding) where
  abbrev user_of : Option String → Option ℕ
  user_of none = none
  user_of (some text) = decoding.parse_u32 text

  abbrev pub header_record : Captures → (group_id : ℕ) (oversized : Bool) → LogRecord
  header_record c group_id oversized = record {
    timestamp = c.timestamp;
    process_id = unwrap_or_zero (decoding.parse_u32 c.pid);
    thread_id = unwrap_or_zero (decoding.parse_u32 c.tid);
    user_id = user_of c.uid;
    priority = priority_of c.priority;
    tag = decoding.trim c.tag;
    message = c.message;
    package_name = none;
    process = none;
    continuation = false;
    crash_boundary = is_some (marker_for c.tag c.message);
    group_id = some group_id;
    marker = marker_for c.tag c.message;
    truncated = oversized;
  }

  abbrev pub continued_record : LogRecord → (message : String) (oversized : Bool) → LogRecord
  continued_record previous message oversized = record previous {
    message = message;
    continuation = true;
    crash_boundary = is_some (marker_for previous.tag message);
    marker = marker_for previous.tag message;
    truncated = oversized;
  }

  -- The parser once a line has given a record.
  abbrev remembered : LogcatParser → LogRecord → LogcatParser × List LogRecord
  remembered p r = (
    record p {
      previous = some r;
      stats = record p.stats { records = saturating_add p.stats.records 1 };
    },
    r ∷ [],
  )

  abbrev unheaded :
      LogcatParser
      → (line : String) (oversized : Bool) → Option LogRecord
      → LogcatParser × List LogRecord
  unheaded p line oversized (some previous) =
      remembered p (continued_record previous line oversized)
  unheaded p line oversized none = (
    record p {
      stats = record p.stats { malformed_lines = saturating_add p.stats.malformed_lines 1 };
    },
    [],
  )

  abbrev parsed :
      LogcatParser
      → (line : String) (oversized : Bool) → Option Captures
      → LogcatParser × List LogRecord
  parsed p line oversized (some c) =
      remembered (record p { next_group_id = saturating_add p.next_group_id 1 })
        (header_record c p.next_group_id oversized)
  parsed p line oversized none = unheaded p line oversized p.previous

  abbrev decoded : LogcatParser → (line : String) (oversized : Bool) → LogcatParser × List LogRecord
  decoded p String.[] oversized = (p, [])
  decoded p (String.◌∷◌ c rest) oversized =
      parsed p (String.◌∷◌ c rest) oversized (decoding.captures (String.◌∷◌ c rest))

  unfoldable pub parse_physical_line :
      LogcatParser → List ℕ → (oversized : Bool) → LogcatParser × List LogRecord
  parse_physical_line p bytes oversized =
      let line_bytes = strip_carriage_return bytes in
      decoded
        (record p { stats = count_line p.stats oversized (not (decoding.is_utf8 line_bytes)) })
        (decoding.from_utf8_lossy line_bytes) oversized

  -- The parser after the end of a line.
  abbrev pub end_line : LogcatParser → LogcatParser × List LogRecord
  end_line p =
      let (q, rs) =
        parse_physical_line (record p { partial = [] }) p.partial p.discarding_oversized in
      (record q { discarding_oversized = false }, rs)

  unfoldable pub push_byte : LogcatParser → ℕ → LogcatParser × List LogRecord
  push_byte p byte =
      if byte == 10
      then end_line p
      else if ltb (length p.partial) max_logcat_line_bytes
      then (record p { partial = p.partial ++ byte ∷ [] }, [])
      else (record p { discarding_oversized = true }, [])

  unfoldable pub push : LogcatParser → List ℕ → LogcatParser × List LogRecord
  push p [] = (p, [])
  push p (byte ∷ chunk) =
      let (q, rs) = push_byte p byte in let (r, later) = push q chunk in (r, rs ++ later)

  abbrev is_empty : List ℕ → Bool
  is_empty [] = true
  is_empty (_ ∷ _) = false

  unfoldable pub finish : LogcatParser → LogcatParser × List LogRecord
  finish p = if is_empty p.partial && not p.discarding_oversized then (p, []) else end_line_taken p
    where
      end_line_taken : LogcatParser → LogcatParser × List LogRecord
      end_line_taken q =
          parse_physical_line (record q { partial = []; discarding_oversized = false }) q.partial
            q.discarding_oversized

  unfoldable pub restart : LogcatParser → LogcatParser × List LogRecord
  unfolding finish
  restart p =
      let (q, rs) = finish p in
      (
        record q {
          previous = none;
          stats = record q.stats {
            restart_boundaries = saturating_add q.stats.restart_boundaries 1;
          };
        },
        rs,
      )
