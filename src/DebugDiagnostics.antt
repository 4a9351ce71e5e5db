-- ===== src/DebugDiagnostics.antt =====
-- crates/dexdeck-core/src/debug_diagnostics.rs: the entries that are kept for a bug report. A text
-- is its code points; the argument is `char::is_whitespace`. The global instance and its lock are
-- left out.
pub mod Bounds
use dexdeck.Common.{
  ℕ, ◌+◌, ◌-◌, ◌*◌, min, String, Bool, true, false, ◌||◌, List, [], ◌∷◌, ◌++◌, length, ltb, leb,
  ◌==◌, if◌then◌else◌, saturating_add,
}
use dexdeck.Common.Text.{codes}
use dexdeck.Common.Results.{Result, ok, err, ◌>>=◌, fail_if}
use dexdeck.Secret.{SecretRedactor}
use dexdeck.Secret.Redaction.{redact_text}

pub data DebugLevel : Type 0 where
  trace info warning error : DebugLevel

pub record DebugEntry : Type 0 where
  pub timestamp_ms : ℕ
  pub level : DebugLevel
  pub component : List ℕ
  pub message : List ℕ

pub data DebugDiagnosticError : Type 0 where
  invalid_byte_capacity invalid_entry_capacity : DebugDiagnosticError

pub record DebugDiagnostics : Type 0 where
  pub entries : List DebugEntry
  pub maximum_bytes : ℕ
  pub maximum_entries : ℕ
  pub retained_bytes : ℕ
  pub discarded_entries : ℕ

-- The bytes of a character in UTF-8, and those of a text.
abbrev pub width : ℕ → ℕ
width c = if ltb c 128 then 1 else if ltb c 2048 then 2 else if ltb c 65536 then 3 else 4

abbrev pub byte_length : List ℕ → ℕ
byte_length [] = 0
byte_length (c ∷ text) = width c + byte_length text

unfoldable pub estimated_bytes : DebugEntry → ℕ
estimated_bytes e =
    saturating_add (saturating_add (byte_length e.component) (byte_length e.message)) 48

abbrev pub no_entries : (maximum_bytes maximum_entries : ℕ) → DebugDiagnostics
no_entries maximum_bytes maximum_entries = record {
  entries = [];
  maximum_bytes = maximum_bytes;
  maximum_entries = maximum_entries;
  retained_bytes = 0;
  discarded_entries = 0;
}

unfoldable pub new :
    (maximum_bytes maximum_entries : ℕ) → Result DebugDiagnosticError DebugDiagnostics
new maximum_bytes maximum_entries = do
  some_bytes ← fail_if (maximum_bytes == 0) invalid_byte_capacity
  some_entries ← fail_if (maximum_entries == 0) invalid_entry_capacity
  ok (no_entries maximum_bytes maximum_entries)

abbrev replace_code : (code : ℕ) (mark : List ℕ) → List ℕ → List ℕ
replace_code code mark [] = []
replace_code code mark (c ∷ text) =
    let rest = replace_code code mark text in if c == code then mark ++ rest else c ∷ rest

unfoldable pub sanitize : List ℕ → List ℕ
sanitize text = replace_code 10 (codes "\\n") (replace_code 13 (codes "\\r") text)

-- The whole characters that end at or before the byte `maximum_bytes`.
unfoldable pub truncate_utf8 : List ℕ → (maximum_bytes : ℕ) → List ℕ
truncate_utf8 [] maximum_bytes = []
truncate_utf8 (c ∷ text) maximum_bytes =
    let rest = truncate_utf8 text (maximum_bytes - width c) in
    if leb (width c) maximum_bytes then c ∷ rest else []

-- The `while` loop of `push`; it breaks when there is nothing to discard.
unfoldable pub discard :
    (maximum_bytes maximum_entries entry_bytes : ℕ)
    → List DebugEntry
    → (retained_bytes discarded_entries : ℕ) → List DebugEntry × (ℕ × ℕ)
discard maximum_bytes maximum_entries entry_bytes [] retained_bytes discarded_entries =
    ([], (retained_bytes, discarded_entries))
discard maximum_bytes maximum_entries entry_bytes (e ∷ entries) retained_bytes discarded_entries =
    let rest =
      discard maximum_bytes maximum_entries entry_bytes entries (retained_bytes - estimated_bytes e)
        (saturating_add discarded_entries 1) in
    if leb maximum_entries (length (e ∷ entries))
      || ltb maximum_bytes (saturating_add retained_bytes entry_bytes)
    then rest
    else (e ∷ entries, (retained_bytes, discarded_entries))

abbrev pub kept_entry :
    DebugDiagnostics → DebugEntry → (entry_bytes : ℕ) → List DebugEntry × (ℕ × ℕ) → DebugDiagnostics
kept_entry d e entry_bytes (entries, (retained_bytes, discarded_entries)) = record d {
  entries = entries ++ e ∷ [];
  retained_bytes = saturating_add retained_bytes entry_bytes;
  discarded_entries = discarded_entries;
}

-- `push` from the entry on.
abbrev pub push_entry : DebugDiagnostics → DebugEntry → DebugDiagnostics
push_entry d e =
    let entry_bytes = min (estimated_bytes e) d.maximum_bytes in
    kept_entry d e entry_bytes (
      discard d.maximum_bytes d.maximum_entries entry_bytes d.entries d.retained_bytes
        d.discarded_entries)

pub record Message : Type 0 where
  pub timestamp_ms : ℕ
  pub level : DebugLevel
  pub component : String
  pub text : String
  pub redactor : SecretRedactor

-- The entry of two texts that are redacted and sanitized.
unfoldable pub cut_entry : (maximum_bytes : ℕ) → Message → (component message : List ℕ) → DebugEntry
cut_entry maximum_bytes m component message =
    let component = truncate_utf8 component (maximum_bytes - 48) in
    let fixed_bytes = saturating_add (byte_length component) 48 in
    record {
      timestamp_ms = m.timestamp_ms;
      level = m.level;
      component = component;
      message = truncate_utf8 message (maximum_bytes - fixed_bytes);
    }

module _ (is_whitespace : ℕ → Bool) where
  unfoldable pub entry_of : (maximum_bytes : ℕ) → Message → DebugEntry
  entry_of maximum_bytes m =
      cut_entry maximum_bytes m
        (sanitize (redact_text is_whitespace m.redactor (codes m.component)))
        (sanitize (redact_text is_whitespace m.redactor (codes m.text)))

  unfoldable pub push : DebugDiagnostics → Message → DebugDiagnostics
  push d m = push_entry d (entry_of d.maximum_bytes m)

  -- One call of `push` after the other.
  unfoldable pub push_messages : DebugDiagnostics → List Message → DebugDiagnostics
  push_messages d [] = d
  push_messages d (m ∷ messages) = push_messages (push d m) messages
