-- ===== src/Logcat/Accounting.antt =====
-- crates/dexdeck-android/src/logcat.rs: each new record is sent, dropped and counted, or still waits
-- in the batch.
use dexdeck.Common.{
  ◌≡◌, refl, ap, arith, ℕ, ◌≤◌, ◌+◌, ◌*◌, String, String-discrete, Option, some, ◌||◌, Bool-cases,
  Option-cases, inl, inr, List, [], ◌∷◌, ◌++◌, length, length-append, leb, if◌then◌else◌, contains,
  u64_max,
}
use dexdeck.Protocol.Log.{LogRecord}
use dexdeck.Logcat.Capture.{
  Capture, LogcatSelection, ProcessSnapshot, add_to_batch, sent, send_batch, flush_batch,
  flush_if_full, is_new, take_record, take_records, enrich_record, matches_selection, dedup_key,
}

-- The records that were sent, were dropped, or wait.
abbrev pub accounted : {Channel : Type 0} → Capture Channel → ℕ
accounted c = c.status.records_sent + c.status.records_dropped + length c.batch

-- `received` is what the channel has taken so far. The channel has taken as many records from one
-- capture to the other as are counted as sent.
abbrev pub SentTaken :
    {Channel : Type 0} → (Channel → List LogRecord) → (c d : Capture Channel) → Type 0
SentTaken received c d =
    d.status.records_sent + length (received c.channel)
    ≡ c.status.records_sent + length (received d.channel)

-- No record is lost on the way, and those that are counted as sent are those that were taken.
pub record Counted {Channel : Type 0} (received : Channel → List LogRecord) (new : ℕ)
    (c d : Capture Channel) : Type 0 where
  pub total : accounted d ≡ accounted c + new
  pub sent_taken : SentTaken received c d

-- A message that the channel takes comes after the records that it has taken before.
abbrev pub Receives :
    {Channel : Type 0}
    → (Channel → List LogRecord → Option Channel)
    → (Channel → List LogRecord)
    → Type 0
Receives {Channel} try_send received =
    (channel after : Channel) (rs : List LogRecord)
    → try_send channel rs ≡ some after
    → received after ≡ received channel ++ rs

module _ {Channel : Type 0} (try_send : Channel → List LogRecord → Option Channel)
    (received : Channel → List LogRecord) (receives : Receives try_send received) where
  same-Counted : (c : Capture Channel) → Counted received 0 c c
  same-Counted c = record { total = omega arith; sent_taken = refl }

  send-Counted :
      (c : Capture Channel) (r : LogRecord) (rs : List LogRecord)
      → c.batch ≡ r ∷ rs
      → accounted c ≤ u64_max
      → Counted received 0 c (sent try_send c (length (r ∷ rs)) (try_send c.channel (r ∷ rs)))
  send-Counted c r rs e h = elim (Option-cases (try_send c.channel (r ∷ rs))) [
    | inl refused ↦ rw refused (record { total = omega (arith, ap length e); sent_taken = refl })
    | inr (after, taken) ↦
        let grown = ap length (receives c.channel after (r ∷ rs) taken) in
        let both = length-append (received c.channel) (r ∷ rs) in
        rw taken (record {
          total = omega (arith, ap length e);
          sent_taken = omega (arith, grown, both, ap length e);
        })
  ]

  send_batch-Counted :
      (c : Capture Channel) (rs : List LogRecord)
      → c.batch ≡ rs
      → accounted c ≤ u64_max
      → Counted received 0 c (send_batch try_send c rs)
  send_batch-Counted c [] e h = same-Counted c
  send_batch-Counted c (r ∷ rs) e h = send-Counted c r rs e h

  flush_batch-Counted :
      (c : Capture Channel) → accounted c ≤ u64_max → Counted received 0 c (flush_batch try_send c)
  unfolding flush_batch
  flush_batch-Counted c h = send_batch-Counted c c.batch refl h

  flush_if_full-Counted :
      (c : Capture Channel)
      → accounted c ≤ u64_max
      → Counted received 0 c (flush_if_full try_send c)
  unfolding flush_if_full
  flush_if_full-Counted c h =
      elim (Bool-cases (leb 256 (length c.batch) || leb (64 * 1024) c.batch_bytes)) [
        | inl full ↦ rw full (flush_batch-Counted c h)
        | inr room ↦ rw room (same-Counted c)
      ]

  module _ (decimal : ℕ → String) (app_package : Option String) (selection : LogcatSelection)
      (snapshot : ProcessSnapshot) where
    abbrev pub one_if_new : Capture Channel → LogRecord → ℕ
    one_if_new c r = if is_new try_send decimal app_package selection snapshot c r then 1 else 0

    -- How many of the records are new, each as the ones before it leave the capture.
    unfoldable pub new_records : Capture Channel → List LogRecord → ℕ
    new_records c [] = 0
    new_records c (r ∷ rs) =
        one_if_new c r
        + new_records (take_record try_send decimal app_package selection snapshot c r) rs

    take_record-Counted :
        (c : Capture Channel) (r : LogRecord)
        → accounted c + one_if_new c r ≤ u64_max
        → Counted received
            (one_if_new c r)
            c
            (take_record try_send decimal app_package selection snapshot c r)
    unfolding take_record
    take_record-Counted c r h =
        elim (Bool-cases (matches_selection enriched selection app_package snapshot)) [
          | inr other ↦ rw other (same-Counted c)
          | inl matching ↦
              elim (Bool-cases
                (contains String-discrete (dedup_key decimal enriched) c.recent_set)) [
                  | inl repeated ↦
                      rw (matching, repeated) (record { total = omega arith; sent_taken = refl })
                  | inr unknown ↦
                      let flushed =
                        flush_if_full-Counted added (ground (arith, matching, unknown, grown, h)) in
                      rw (matching, unknown)
                        (record {
                          total = omega (arith, flushed.total, grown);
                          sent_taken = flushed.sent_taken;
                        })
                ]
        ]
      where
        enriched : LogRecord
        enriched = enrich_record r app_package snapshot

        added : Capture Channel
        added =
            add_to_batch try_send (record c { last_timestamp = some enriched.timestamp }) enriched
              (dedup_key decimal enriched)

        grown : accounted added ≡ accounted c + 1
        grown = omega (arith, length-append c.batch (enriched ∷ []))

    -- As long as the counts do not come to their limit, every record that is new is counted once:
    -- as sent, as dropped, or in the batch; and as many are counted as sent as the channel takes, if
    -- it keeps each message that it takes after those before.
    pub take_records-accounted :
        (c : Capture Channel) (rs : List LogRecord)
        → accounted c + new_records c rs ≤ u64_max
        → Counted received
            (new_records c rs)
            c
            (take_records try_send decimal app_package selection snapshot c rs)
    unfolding take_records new_records
    take_records-accounted c [] h = same-Counted c
    take_records-accounted c (r ∷ rs) h =
        let first = take_record-Counted c r (omega arith) in
        let later =
          take_records-accounted (take_record try_send decimal app_package selection snapshot c r)
            rs (omega (arith, first.total)) in
        record {
          total = omega (arith, first.total, later.total);
          sent_taken = omega (arith, first.sent_taken, later.sent_taken);
        }
