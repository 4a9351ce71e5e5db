-- ===== src/Logcat/Held.antt =====
-- crates/dexdeck-android/src/logcat.rs: what the parser keeps of a line that has not ended yet,
-- however the output is cut into chunks.
use dexdeck.Common.{
  ◌≡◌, refl, sym, ap, ◌∙◌, arith, ℕ, zero, suc, ◌≤◌, ◌<◌, min, String, Option, none, some, Bool,
  false, Bool-cases, inl, inr, List, [], ◌∷◌, ◌++◌, length, length-append, take, ◌==◌, ltb,
  if◌then◌else◌,
}
use dexdeck.Protocol.Log.{LogRecord}
use dexdeck.Logcat.{
  Decoding, Captures, LogcatParser, unheaded, parsed, decoded, strip_carriage_return,
  max_logcat_line_bytes, push_byte, push, end_line, parse_physical_line,
}
use dexdeck.Logcat.Chunks.{push_chunks, push_chunks-concat, concat}
use dexdeck.Logcat.Lines.{take_within}

-- The bytes after the last newline, where `line` has been read of the last line.
abbrev pub since_newline : (line bytes : List ℕ) → List ℕ
since_newline line [] = line
since_newline line (byte ∷ bytes) =
    let next = since_newline [] bytes in
    let longer = since_newline (line ++ byte ∷ []) bytes in if byte == 10 then next else longer

-- The parser has the first 256 KiB of the line, and knows whether it is longer.
pub record Held (line : List ℕ) (p : LogcatParser) : Type 0 where
  pub collected : p.partial ≡ take max_logcat_line_bytes line
  pub marked : p.discarding_oversized ≡ ltb max_logcat_line_bytes (length line)

module _ {A : Type 0} where
  length-take : (n : ℕ) (xs : List A) → length (take n xs) ≡ min n (length xs)
  length-take zero xs = omega arith
  length-take (suc n) [] = omega arith
  length-take (suc n) (x ∷ xs) = omega (arith, length-take n xs)

  take-append_past : (n : ℕ) (xs ys : List A) → n ≤ length xs → take n (xs ++ ys) ≡ take n xs
  take-append_past zero xs ys h = refl
  take-append_past (suc n) [] ys h = absurd (omega arith)
  take-append_past (suc n) (x ∷ xs) ys h =
      ap (λ rest. x ∷ rest) (take-append_past n xs ys (omega arith))

  take_longer :
      (n : ℕ) (xs : List A) (x : A)
      → length (take n xs) < n
      → take n xs ++ x ∷ [] ≡ take n (xs ++ x ∷ [])
  take_longer n xs x h =
      ap (λ front. front ++ x ∷ []) (take_within n xs (omega (arith, length-take n xs)))
      ∙ sym (
          take_within n (xs ++ x ∷ []) (omega (arith, length-take n xs, length-append xs (x ∷ []))))

module _ (decoding : Decoding) where
  unheaded_partial :
      (p : LogcatParser) (line : String) (mark : Bool) (previous : Option LogRecord)
      → (unheaded decoding p line mark previous).0.partial ≡ p.partial
  unheaded_partial p line mark none = refl
  unheaded_partial p line mark (some previous) = refl

  parsed_partial :
      (p : LogcatParser) (line : String) (mark : Bool) (o : Option Captures)
      → (parsed decoding p line mark o).0.partial ≡ p.partial
  parsed_partial p line mark none = unheaded_partial p line mark p.previous
  parsed_partial p line mark (some c) = refl

  decoded_partial :
      (p : LogcatParser) (line : String) (mark : Bool)
      → (decoded decoding p line mark).0.partial ≡ p.partial
  decoded_partial p String.[] mark = refl
  decoded_partial p (String.◌∷◌ c rest) mark =
      parsed_partial p (String.◌∷◌ c rest) mark (decoding.captures (String.◌∷◌ c rest))

  end_line-Held : (p : LogcatParser) → Held [] (end_line decoding p).0
  unfolding parse_physical_line
  end_line-Held p = record {
    collected =
        decoded_partial _ (decoding.from_utf8_lossy (strip_carriage_return p.partial)) _
        ∙ sym (take_within max_logcat_line_bytes [] (omega arith));
    marked = ground arith;
  }

  byte-Held :
      (p : LogcatParser) (line : List ℕ) (byte : ℕ)
      → (byte == 10) ≡ false
      → Held line p
      → Held (line ++ byte ∷ []) (push_byte decoding p byte).0
  unfolding push_byte
  byte-Held p line byte other h =
      let size : length p.partial ≡ min max_logcat_line_bytes (length line) =
        ap length h.collected ∙ length-take max_logcat_line_bytes line in
      let longer = length-append line (byte ∷ []) in
      elim (Bool-cases (ltb (length p.partial) max_logcat_line_bytes)) [
        | inl room ↦
            rw (other, room)
              (record {
                collected =
                    ap (λ front. front ++ byte ∷ []) h.collected
                    ∙ take_longer _ line byte
                        (ground (arith, size, length-take max_logcat_line_bytes line));
                marked = ground (arith, size, longer);
              })
        | inr full ↦
            rw (other, full)
              (record {
                collected =
                    h.collected
                    ∙ sym (
                        take-append_past max_logcat_line_bytes line (byte ∷ [])
                          (ground (arith, size)));
                marked = ground (arith, size, longer);
              })
      ]

  push-Held :
      (p : LogcatParser) (line bytes : List ℕ)
      → Held line p
      → Held (since_newline line bytes) (push decoding p bytes).0
  unfolding push
  push-Held p line [] h = h
  push-Held p line (byte ∷ bytes) h = elim (Bool-cases (byte == 10)) [
    | inl newline ↦ rw newline (
        push-Held (push_byte decoding p byte).0 [] bytes
          (unfold push_byte in rw newline (end_line-Held p)))
    | inr other ↦ rw other (
        push-Held (push_byte decoding p byte).0 (line ++ byte ∷ []) bytes
          (byte-Held p line byte other h))
  ]

  -- If the parser holds a line that has not ended, then after any chunks it holds what follows the
  -- last newline of that line and all their bytes: the first 256 KiB of it, and whether it is longer.
  pub push_chunks-Held :
      (p : LogcatParser) (line : List ℕ) (chunks : List (List ℕ))
      → Held line p
      → Held (since_newline line (concat chunks)) (push_chunks decoding p chunks).0
  push_chunks-Held p line chunks h =
      rw (push_chunks-concat decoding p chunks) (push-Held p line (concat chunks) h)
