-- ===== src/Logcat/Lines.antt =====
-- crates/dexdeck-android/src/logcat.rs: the parser works line by line, on at most 256 KiB of each.

use mathlib.Core.List.{append_assoc, append-nil}
use dexdeck.Common.{
  ◌≡◌, ◌≢◌, refl, sym, ap, ap₂, ◌∙◌, arith, ℕ, zero, suc, ◌≤◌, ◌+◌, String, Option, none, some,
  Bool, true, false, not, ◌||◌, Bool-cases, inl, inr, List, [], ◌∷◌, ◌++◌, length, length-append,
  take, ◌==◌, ltb, All,
}
use dexdeck.Protocol.Log.{LogRecord}
use dexdeck.Logcat.{
  Decoding, Captures, LogcatParser, max_logcat_line_bytes, push_byte, push, parse_physical_line,
  decoded, parsed, unheaded, count_line, strip_carriage_return,
}
use dexdeck.Logcat.Chunks.{push-append}

module _ {A : Type 0} where
  pub take_within : (n : ℕ) (xs : List A) → length xs ≤ n → take n xs ≡ xs
  take_within zero [] h = refl
  take_within zero (x ∷ xs) h = absurd (omega arith)
  take_within (suc n) [] h = refl
  take_within (suc n) (x ∷ xs) h = ap (λ rest. x ∷ rest) (take_within n xs (omega arith))

  take-append_exact : (n : ℕ) (xs ys : List A) → length xs ≡ n → take n (xs ++ ys) ≡ xs
  take-append_exact zero [] ys h = refl
  take-append_exact zero (x ∷ xs) ys h = absurd (omega arith)
  take-append_exact (suc n) [] ys h = absurd (omega arith)
  take-append_exact (suc n) (x ∷ xs) ys h =
      ap (λ rest. x ∷ rest) (take-append_exact n xs ys (omega arith))

-- A parser with a part of a line.
abbrev within : LogcatParser → List ℕ → Bool → LogcatParser
within p partial oversized = record p { partial = partial; discarding_oversized = oversized }

-- A parser at the start of a line.
abbrev pub line_start : LogcatParser → LogcatParser
line_start p = within p [] false

-- The lines, each with its newline.
abbrev pub unlines : List (List ℕ) → List ℕ
unlines [] = []
unlines (line ∷ lines) = (line ++ 10 ∷ []) ++ unlines lines

module _ (decoding : Decoding) where
  -- Each line by itself: its first 256 KiB, and whether it was longer.
  unfoldable pub parse_lines : LogcatParser → List (List ℕ) → LogcatParser × List LogRecord
  parse_lines p [] = (line_start p, [])
  parse_lines p (line ∷ lines) =
      let (q, rs) =
        parse_physical_line decoding (line_start p) (take max_logcat_line_bytes line)
          (ltb max_logcat_line_bytes (length line)) in
      let (r, later) = parse_lines q lines in (r, rs ++ later)

-- What is reset at the end of a line makes no difference to what the line gives.
module _ (decoding : Decoding) (oversized : Bool) (reset : LogcatParser → LogcatParser)
    (starts : (p : LogcatParser) → reset (within p [] oversized) ≡ line_start p) where
  abbrev first_reset : LogcatParser × List LogRecord → LogcatParser × List LogRecord
  first_reset (p, rs) = (reset p, rs)

  kept :
      (q : LogcatParser) (rs : List LogRecord)
      → first_reset (within q [] oversized, rs) ≡ (line_start q, rs)
  kept q rs = ap (λ r. (r, rs)) (starts q)

  unheaded_start :
      (p : LogcatParser) (line : String) (mark : Bool) (previous : Option LogRecord)
      → first_reset (unheaded decoding (within p [] oversized) line mark previous)
        ≡ unheaded decoding (line_start p) line mark previous
  unheaded_start p line mark none = kept (unheaded decoding p line mark none).0 []
  unheaded_start p line mark (some previous) =
      kept (unheaded decoding p line mark (some previous)).0
        (unheaded decoding p line mark (some previous)).1

  parsed_start :
      (p : LogcatParser) (line : String) (mark : Bool) (o : Option Captures)
      → first_reset (parsed decoding (within p [] oversized) line mark o)
        ≡ parsed decoding (line_start p) line mark o
  parsed_start p line mark none = unheaded_start p line mark p.previous
  parsed_start p line mark (some c) =
      kept (parsed decoding p line mark (some c)).0 (parsed decoding p line mark (some c)).1

  decoded_start :
      (p : LogcatParser) (line : String) (mark : Bool)
      → first_reset (decoded decoding (within p [] oversized) line mark)
        ≡ decoded decoding (line_start p) line mark
  decoded_start p String.[] mark = kept p []
  decoded_start p (String.◌∷◌ c rest) mark =
      parsed_start p (String.◌∷◌ c rest) mark (decoding.captures (String.◌∷◌ c rest))

  parse_start :
      (p : LogcatParser) (bytes : List ℕ) (mark : Bool)
      → first_reset (parse_physical_line decoding (within p [] oversized) bytes mark)
        ≡ parse_physical_line decoding (line_start p) bytes mark
  unfolding parse_physical_line
  parse_start p bytes mark =
      decoded_start
        (record p {
          stats = count_line p.stats mark (not (decoding.is_utf8 (strip_carriage_return bytes)));
        })
        (decoding.from_utf8_lossy (strip_carriage_return bytes)) mark

zero_add : (n : ℕ) → 0 + n ≡ n
zero_add n = omega arith

module _ (decoding : Decoding) where
  same_within :
      (p : LogcatParser) {bytes others : List ℕ} {mark other : Bool}
      → bytes ≡ others
      → mark ≡ other
      → ◌≡◌ {A = LogcatParser × List LogRecord}
          (within p bytes mark, [])
          (within p others other, [])
  same_within p e m = ap₂ (λ bs b. (within p bs b, [])) e m

  -- Bytes other than a newline are collected up to the limit.
  collects :
      (p : LogcatParser) (partial line : List ℕ) (oversized : Bool)
      → length partial ≤ max_logcat_line_bytes
      → All (λ byte. byte ≢ 10) line
      → push decoding (within p partial oversized) line ≡ (
        within p
            (take max_logcat_line_bytes (partial ++ line))
            (oversized || ltb max_logcat_line_bytes (length partial + length line)),
        [],
      )
  unfolding push push_byte
  collects p partial [] oversized h lines =
      same_within p
        (sym (
          ap (take max_logcat_line_bytes) (append-nil partial)
          ∙ take_within max_logcat_line_bytes partial h))
        (ground arith)
  collects p partial (byte ∷ line) oversized h (other, rest) =
      elim (Bool-cases (ltb (length partial) max_logcat_line_bytes)) [
        | inl room ↦
            rw (not_newline, room)
              (collects p (partial ++ byte ∷ []) line oversized
                  (ground (arith, length-append partial (byte ∷ []))) rest
                ∙ same_within p
                    (ap (take max_logcat_line_bytes) (append_assoc partial (byte ∷ []) line))
                    (ground (arith, length-append partial (byte ∷ []))))
        | inr full ↦
            rw (not_newline, full)
              (collects p partial line true h rest
                ∙ same_within p
                    (take-append_exact max_logcat_line_bytes partial line (ground arith)
                      ∙ sym (
                          take-append_exact max_logcat_line_bytes partial (byte ∷ line)
                            (ground arith)))
                    (ground arith))
      ]
    where
      not_newline : (byte == 10) ≡ false
      not_newline = ground arith

  newline :
      (p : LogcatParser) (line : List ℕ) (mark : Bool)
      → push decoding (within p line mark) (10 ∷ [])
        ≡ parse_physical_line decoding (line_start p) line mark
  unfolding push push_byte
  newline p line mark =
      ap (λ rs. ((push_byte decoding (within p line mark) 10).0, rs)) (append-nil _)
      ∙ parse_start decoding mark (λ q. record q { discarding_oversized = false }) (λ q. refl) p
          line mark

  one_line :
      (p : LogcatParser) (line : List ℕ)
      → All (λ byte. byte ≢ 10) line
      → push decoding (line_start p) (line ++ 10 ∷ [])
        ≡ parse_physical_line decoding
            (line_start p)
            (take max_logcat_line_bytes line)
            (ltb max_logcat_line_bytes (length line))
  one_line p line other =
      push-append decoding (line_start p) line (10 ∷ [])
      ∙ rw (collects p [] line false (omega arith) other) (
          newline p (take max_logcat_line_bytes line) (ltb max_logcat_line_bytes (0 + length line))
          ∙ ap
              (λ (n : ℕ).
                parse_physical_line decoding (line_start p) (take max_logcat_line_bytes line)
                  (ltb max_logcat_line_bytes n))
              (zero_add (length line)))

  at_line_start :
      (p : LogcatParser) (bytes : List ℕ) (mark : Bool)
      → (parse_physical_line decoding (line_start p) bytes mark).0
        ≡ line_start (parse_physical_line decoding (line_start p) bytes mark).0
  at_line_start p bytes mark =
      sym (ap (λ r. r.0) (parse_start decoding false line_start (λ q. refl) p bytes mark))

  -- At the start of a line, pushing lines of any length, each with its newline, leaves the parser
  -- and gives the records that come of parsing the first 256 KiB of each line by itself, marked as
  -- oversized just when the line is longer.
  pub push-unlines :
      (p : LogcatParser) (lines : List (List ℕ))
      → All (λ line. All (λ byte. byte ≢ 10) line) lines
      → push decoding (line_start p) (unlines lines) ≡ parse_lines decoding p lines
  unfolding parse_lines
  push-unlines p [] h = unfold push in refl
  push-unlines p (line ∷ lines) (here, later) =
      push-append decoding (line_start p) (line ++ 10 ∷ []) (unlines lines)
      ∙ rw (one_line p line here) (
          ap (λ r. (r.0, first.1 ++ r.1))
            (ap (λ q. push decoding q (unlines lines))
                (at_line_start p (take max_logcat_line_bytes line)
                  (ltb max_logcat_line_bytes (length line)))
              ∙ push-unlines first.0 lines later))
    where
      first : LogcatParser × List LogRecord
      first =
          parse_physical_line decoding (line_start p) (take max_logcat_line_bytes line)
            (ltb max_logcat_line_bytes (length line))
