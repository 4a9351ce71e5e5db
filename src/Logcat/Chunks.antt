-- ===== src/Logcat/Chunks.antt =====
-- crates/dexdeck-android/src/logcat.rs: how the output is cut into chunks makes no difference.
use mathlib.Core.List.{append_assoc}
use dexdeck.Common.{◌≡◌, refl, sym, ap, ℕ, List, [], ◌∷◌, ◌++◌}
use dexdeck.Protocol.Log.{LogRecord}
use dexdeck.Logcat.{Decoding, LogcatParser, push_byte, push}

abbrev pub concat : List (List ℕ) → List ℕ
concat [] = []
concat (chunk ∷ chunks) = chunk ++ concat chunks

module _ (decoding : Decoding) where
  -- One `push` after the other.
  unfoldable pub push_chunks : LogcatParser → List (List ℕ) → LogcatParser × List LogRecord
  push_chunks p [] = (p, [])
  push_chunks p (chunk ∷ chunks) =
      let (q, rs) = push decoding p chunk in
      let (r, later) = push_chunks q chunks in (r, rs ++ later)

  pub push-append :
      (p : LogcatParser) (xs ys : List ℕ)
      → push decoding p (xs ++ ys) ≡ (
        (push decoding (push decoding p xs).0 ys).0,
        (push decoding p xs).1 ++ (push decoding (push decoding p xs).0 ys).1,
      )
  unfolding push
  push-append p [] ys = refl
  push-append p (x ∷ xs) ys = rw (push-append (push_byte decoding p x).0 xs ys) (
      ap (λ rs. ((push decoding (push decoding (push_byte decoding p x).0 xs).0 ys).0, rs))
        (sym (append_assoc (push_byte decoding p x).1 _ _)))

  -- Pushing chunks one after the other leaves the parser, and gives the records, that pushing all
  -- their bytes at once does.
  pub push_chunks-concat :
      (p : LogcatParser) (chunks : List (List ℕ))
      → push_chunks p chunks ≡ push decoding p (concat chunks)
  unfolding push_chunks
  push_chunks-concat p [] = unfold push in refl
  push_chunks-concat p (chunk ∷ chunks) =
      rw (push_chunks-concat (push decoding p chunk).0 chunks)
        (sym (push-append p chunk (concat chunks)))
