-- ===== src/Tests/DebugDiagnostics.antt =====
-- Messages with a registered secret, and a buffer for two entries.
use dexdeck.Common.{◌≡◌, refl, ℕ, ◌<◌, arith, u64_max, Bool, ◌==◌, [], ◌∷◌, map, length}
use dexdeck.Common.Text.{codes}
use dexdeck.Common.Results.{ok}
use dexdeck.Secret.{SecretRedactor}
use dexdeck.Secret.Redaction.{
  redacted_mark, is_sensitive_name, is_sensitive_flag, redact_assignments, redact_text, redact_from,
  redact_argv,
}
use dexdeck.DebugDiagnostics.{
  Message, info, no_entries, new, estimated_bytes, sanitize, truncate_utf8, discard, cut_entry,
  entry_of, push, push_messages,
}
use dexdeck.DebugDiagnostics.Bounds.{Bounded, push_messages-Bounded}

abbrev is_space : ℕ → Bool
is_space c = c == 32

abbrev redactor : SecretRedactor
redactor = record { patterns = "s3cr3t" ∷ [] }

redact_text_run :
    redact_text is_space redactor (codes "failure for token=s3cr3t now")
    ≡ codes "failure for token=[REDACTED] now"
unfolding redact_text redact_assignments is_sensitive_name redacted_mark
redact_text_run = refl

redact_argv_run :
    redact_argv is_space redactor
      (map codes ("gradlew" ∷ "--password" ∷ "other" ∷ "-PapiToken=s3cr3t" ∷ []))
    ≡ map codes ("gradlew" ∷ "--password" ∷ "[REDACTED]" ∷ "-PapiToken=[REDACTED]" ∷ [])
unfolding redact_argv redact_from is_sensitive_flag redact_text redact_assignments is_sensitive_name
    redacted_mark
redact_argv_run = refl

abbrev said : Message
said = record {
  timestamp_ms = 1;
  level = info;
  component = "build";
  text = "token=s3cr3t\n";
  redactor = redactor;
}

two_of_three :
    length (push_messages is_space (no_entries 200 2) (said ∷ said ∷ said ∷ [])).entries ≡ 2
unfolding push_messages push entry_of cut_entry truncate_utf8 sanitize discard estimated_bytes
    redact_text redact_assignments is_sensitive_name redacted_mark
two_of_three = refl

new_run : new 200 2 ≡ ok (no_entries 200 2)
unfolding new
new_run = refl

small : 200 < u64_max
small = omega arith

push_messages-Bounded_example :
    Bounded 200 2 (push_messages is_space (no_entries 200 2) (said ∷ said ∷ said ∷ []))
push_messages-Bounded_example =
    push_messages-Bounded is_space 200 2 (no_entries 200 2) (said ∷ said ∷ said ∷ []) new_run
      (omega arith) small
