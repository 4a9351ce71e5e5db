-- ===== src/Secret/Redaction.antt =====
-- crates/dexdeck-core/src/secret.rs: `redact_text` and `redact_argv`. A text is its code points; the
-- argument is `char::is_whitespace`.
use dexdeck.Common.{
  ℕ, zero, suc, ◌-◌, String, Option, none, some, Bool, true, false, ◌&&◌, List, [], ◌∷◌, ◌++◌, map,
  any, length, drop, ◌==◌, if◌then◌else◌,
}
use dexdeck.Common.Text.{codes, ascii_lower, contains_codes, starts_with}
use dexdeck.Secret.{SecretRedactor}

unfoldable pub redacted_mark : List ℕ
redacted_mark = codes "[REDACTED]"

abbrev sensitive_markers : List String
sensitive_markers =
    "token" ∷ "password" ∷ "passwd" ∷ "secret" ∷ "credential" ∷ "private_key" ∷ "api_key"
    ∷ "storepass" ∷ "keypass" ∷ []

abbrev underscored : ℕ → ℕ
underscored c = if c == 45 then 95 else c

abbrev normalized : List ℕ → List ℕ
normalized name = map (λ c. underscored (ascii_lower c)) name

unfoldable pub is_sensitive_name : List ℕ → Bool
is_sensitive_name name =
    any (λ marker. contains_codes (normalized name) (codes marker)) sensitive_markers

abbrev trim_dashes : List ℕ → List ℕ
trim_dashes [] = []
trim_dashes (c ∷ text) = let rest = trim_dashes text in if c == 45 then rest else c ∷ text

abbrev starts_with_dash : List ℕ → Bool
starts_with_dash [] = false
starts_with_dash (c ∷ text) = c == 45

unfoldable pub is_sensitive_flag : List ℕ → Bool
is_sensitive_flag value = starts_with_dash value && is_sensitive_name (trim_dashes value)

-- `str::replace` with a pattern that is not empty; `skip` characters of the text belong to an
-- occurrence that was replaced.
abbrev replaced : (part mark : List ℕ) (skip : ℕ) → List ℕ → List ℕ
replaced part mark skip [] = []
replaced part mark (suc skip) (c ∷ text) = replaced part mark skip text
replaced part mark zero (c ∷ text) =
    let here = mark ++ replaced part mark (length part - 1) text in
    let past = c ∷ replaced part mark 0 text in if starts_with (c ∷ text) part then here else past

abbrev replace_all : List String → List ℕ → List ℕ
replace_all [] text = text
replace_all (pattern_text ∷ patterns) text =
    replace_all patterns (replaced (codes pattern_text) redacted_mark 0 text)

-- What stands before the first `=`, if there is one.
abbrev key_of : List ℕ → Option (List ℕ)
key_of [] = none
key_of (c ∷ text) =
    let rest = key_of text in
    if c == 61 then some [] else elim rest [ none ↦ none | some key ↦ some (c ∷ key) ]

abbrev hide_value : List ℕ → Option (List ℕ) → List ℕ
hide_value trimmed none = trimmed
hide_value trimmed (some key) = if is_sensitive_name key then key ++ 61 ∷ redacted_mark else trimmed

abbrev is_empty : List ℕ → Bool
is_empty [] = true
is_empty (_ ∷ _) = false

module _ (is_whitespace : ℕ → Bool) where
  -- `split_inclusive`, where `part` has been read.
  abbrev split_inclusive : (part : List ℕ) → List ℕ → List (List ℕ)
  split_inclusive [] [] = []
  split_inclusive (c ∷ part) [] = (c ∷ part) ∷ []
  split_inclusive part (c ∷ text) =
      let ended = (part ++ c ∷ []) ∷ split_inclusive [] text in
      let longer = split_inclusive (part ++ c ∷ []) text in
      if is_whitespace c then ended else longer

  abbrev trim_end : List ℕ → List ℕ
  trim_end [] = []
  trim_end (c ∷ text) =
      let rest = trim_end text in if is_empty rest && is_whitespace c then [] else c ∷ rest

  abbrev redact_part : List ℕ → List ℕ
  redact_part part =
      let trimmed = trim_end part in
      hide_value trimmed (key_of trimmed) ++ drop (length trimmed) part

  abbrev joined : List (List ℕ) → List ℕ
  joined [] = []
  joined (part ∷ parts) = redact_part part ++ joined parts

  unfoldable pub redact_assignments : List ℕ → List ℕ
  redact_assignments input = joined (split_inclusive [] input)

  unfoldable pub redact_text : SecretRedactor → List ℕ → List ℕ
  redact_text redactor input = redact_assignments (replace_all redactor.patterns input)

  -- `redact_next` is set by the flag before.
  unfoldable pub redact_from : SecretRedactor → (redact_next : Bool) → List (List ℕ) → List (List ℕ)
  redact_from redactor redact_next [] = []
  redact_from redactor true (argument ∷ argv) = redacted_mark ∷ redact_from redactor false argv
  redact_from redactor false (argument ∷ argv) =
      redact_text redactor argument ∷ redact_from redactor (is_sensitive_flag argument) argv

  unfoldable pub redact_argv : SecretRedactor → List (List ℕ) → List (List ℕ)
  redact_argv redactor argv = redact_from redactor false argv
