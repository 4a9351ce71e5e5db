-- ===== src/Logcat/Window.antt =====
-- crates/dexdeck-android/src/logcat.rs: the window of recent keys that repeated records are told by.
use dexdeck.Common.{
  ◌≡◌, refl, sym, ap, ◌∙◌, subst, arith, ℕ, ◌≤◌, String, String-discrete, Option, none, some, Bool,
  false, ◌||◌, Bool-cases, inl, inr, List, [], ◌∷◌, ◌++◌, length, length-append, ltb, leb, ◌*◌,
  contains, insert_set, remove_all, contains-append, contains-insert_set, contains-remove_all,
  decide,
}
use dexdeck.Protocol.Log.{LogRecord}
use dexdeck.Logcat.Capture.{
  Capture, LogcatSelection, ProcessSnapshot, expire, remember, sent, send_batch, flush_batch,
  flush_if_full, take_record, take_records, enrich_record, matches_selection, dedup_key,
}

abbrev known : String → List String → Bool
known key keys = contains String-discrete key keys

abbrev pub Distinct : List String → Type 0
Distinct [] = Unit
Distinct (key ∷ keys) = (known key keys ≡ false) × Distinct keys

-- The window of recent keys: no key stands in it twice, the set has just the keys of the queue,
-- and there are at most 4096.
pub record Window (recent recent_set : List String) : Type 0 where
  pub distinct : Distinct recent
  pub same_keys : (key : String) → known key recent_set ≡ known key recent
  pub bounded : length recent ≤ 4096

Distinct-append :
    (keys : List String) (key : String)
    → Distinct keys
    → known key keys ≡ false
    → Distinct (keys ++ key ∷ [])
unfolding contains decide
Distinct-append [] key h n = (refl, tt)
Distinct-append (k ∷ keys) key (here, later) n = (
  contains-append String-discrete key k keys ∙ ground (arith, n, here),
  Distinct-append keys key later (ground arith),
)

-- Without the first of distinct keys, the set has the keys of what is left.
without :
    (oldest : String) (keys keys_set : List String)
    → known oldest keys ≡ false
    → ((key : String) → known key keys_set ≡ known key (oldest ∷ keys))
    → (key : String) → known key (remove_all String-discrete oldest keys_set) ≡ known key keys
unfolding contains decide
without oldest keys keys_set fresh same key = elim (String-discrete oldest key) [
  | yes e ↦ ground (
    arith,
    contains-remove_all String-discrete oldest key keys_set,
    subst (λ k. known k keys ≡ false) e fresh,
  )
  | no n ↦ ground (arith, contains-remove_all String-discrete oldest key keys_set, same key)
]

-- The oldest key is dropped from the queue and from the set, if there are too many.
expire-Window :
    (keys keys_set : List String)
    → Distinct keys
    → ((key : String) → known key keys_set ≡ known key keys)
    → length keys ≤ 4097
    → Window (expire keys keys_set).0 (expire keys keys_set).1
expire-Window [] keys_set distinct same short = record {
  distinct = tt;
  same_keys = same;
  bounded = omega arith;
}
expire-Window (oldest ∷ keys) keys_set (fresh, distinct) same short =
    elim (Bool-cases (ltb 4096 (length (oldest ∷ keys)))) [
      | inl full ↦ rw full (record {
        distinct = distinct;
        same_keys = λ key. without oldest keys keys_set fresh same key;
        bounded = omega arith;
      })
      | inr room ↦
          rw room
            (record { distinct = (fresh, distinct); same_keys = same; bounded = ground arith })
    ]

remember-Window :
    (key : String) (recent recent_set : List String)
    → Window recent recent_set
    → known key recent_set ≡ false
    → Window (remember key recent recent_set).0 (remember key recent recent_set).1
unfolding remember
remember-Window key recent recent_set w n =
    expire-Window (recent ++ key ∷ []) (insert_set String-discrete key recent_set)
      (Distinct-append recent key w.distinct (sym (w.same_keys key) ∙ n))
      (λ k.
        contains-insert_set String-discrete key k recent_set
        ∙ ap (λ b. decide (String-discrete key k) || b) (w.same_keys k)
        ∙ sym (contains-append String-discrete key k recent))
      (omega (arith, length-append recent (key ∷ []), w.bounded))

-- What the window of a capture keeps to.
abbrev pub Watched : {Channel : Type 0} → Capture Channel → Type 0
Watched c = Window c.recent c.recent_set

module _ {Channel : Type 0} (try_send : Channel → List LogRecord → Option Channel) where
  sent-Watched :
      (c : Capture Channel) (count : ℕ) (o : Option Channel)
      → Watched c
      → Watched (sent try_send c count o)
  sent-Watched c count none h = h
  sent-Watched c count (some channel) h = h

  send_batch-Watched :
      (c : Capture Channel) (rs : List LogRecord) → Watched c → Watched (send_batch try_send c rs)
  send_batch-Watched c [] h = h
  send_batch-Watched c (r ∷ rs) h = sent-Watched c (length (r ∷ rs)) (try_send c.channel (r ∷ rs)) h

  flush_if_full-Watched : (c : Capture Channel) → Watched c → Watched (flush_if_full try_send c)
  unfolding flush_if_full flush_batch
  flush_if_full-Watched c h =
      elim (Bool-cases (leb 256 (length c.batch) || leb (64 * 1024) c.batch_bytes)) [
        | inl full ↦ rw full (send_batch-Watched c c.batch h)
        | inr room ↦ rw room h
      ]

  module _ (decimal : ℕ → String) (app_package : Option String) (selection : LogcatSelection)
      (snapshot : ProcessSnapshot) where
    take_record-Watched :
        (c : Capture Channel) (r : LogRecord)
        → Watched c
        → Watched (take_record try_send decimal app_package selection snapshot c r)
    unfolding take_record
    take_record-Watched c r h =
        elim (Bool-cases (matches_selection enriched selection app_package snapshot)) [
          | inr other ↦ rw other h
          | inl matching ↦ elim (Bool-cases (known (dedup_key decimal enriched) c.recent_set)) [
            | inl repeated ↦ rw (matching, repeated) h
            | inr unknown ↦
                rw (matching, unknown)
                  (flush_if_full-Watched _
                    (remember-Window (dedup_key decimal enriched) c.recent c.recent_set h unknown))
          ]
        ]
      where
        enriched : LogRecord
        enriched = enrich_record r app_package snapshot

    -- If the window of recent keys is right, it is so whatever records are read: no key stands in it twice, the set has the
    -- keys of the queue and no others, and they are at most 4096.
    pub take_records-Watched :
        (c : Capture Channel) (rs : List LogRecord)
        → Watched c
        → Watched (take_records try_send decimal app_package selection snapshot c rs)
    unfolding take_records
    take_records-Watched c [] h = h
    take_records-Watched c (r ∷ rs) h =
        take_records-Watched (take_record try_send decimal app_package selection snapshot c r) rs
          (take_record-Watched c r h)
