-- ===== src/Core/Broker/OffsetReplay.antt =====
-- core/src/lib.rs: `replay_to_subscriber` of `Broker`, the replay from an offset. `iterate` is
-- `iterate_from` of the log.
pub mod Keeps
use blipmq.Prelude.{
  ℕ, zero, suc, ◌+◌, Bool, true, false, ltb, leb, ◌==◌, List, [], ◌∷◌, Option, none, some,
  if◌then◌else◌, not, Outcome, ok, err, panic,
}
use blipmq.Wire.Buf.{Bytes, Buf}
use blipmq.Core.LogError.{LogError}
use blipmq.Core.WalEntry
use blipmq.Core.WalEntry.{WalEntry, WalMessageRecord, message}
use blipmq.Core.Checkpoint.{Cursor, CheckpointSnapshot}
use blipmq.Core.Subject.{bytes_eq}
use blipmq.Core.TagMap.{get, modify}
use blipmq.Core.NameMap.{find}
use blipmq.Core.Config.{BrokerConfig}
use blipmq.Core.Subscriber.{
  Buffers, beside_buffers, Subscriber, Publication, PushSlot, PushSender, Fate, delivered, dropped,
  next_tag, register, wire_tag, deliver_slot, deliver_channel, deliver_poll,
}
use blipmq.Core.Broker.{Topic, SubscriptionRef, Broker}
use blipmq.Core.Broker.Publish.{count_delivery}
use blipmq.Core.Broker.Ack.{lookup_subscription, raise_cursor, cursor_of}
use blipmq.Wal.Record.{WalRecord}
use blipmq.Core.Broker.Replay.{message_of, replayed}

-- A subscriber with the shared buffers.
abbrev pub Receiver : Type 0
Receiver = Subscriber × Buffers

counted : Subscriber × Buffers × Fate → ℕ → Receiver × ℕ
counted (s, buffers, delivered) n = ((s, buffers), count_delivery n)
counted (s, buffers, dropped) n = ((s, buffers), n)

-- The slot, else the channel; a subscriber that polls is given nothing.
offer_channel : ℕ → Publication → Option PushSender → Receiver → ℕ → Receiver × ℕ
unfolding counted
offer_channel sub_id m none (s, buffers) n = ((s, buffers), n)
offer_channel sub_id m (some sender) (s, buffers) n =
    counted (beside_buffers buffers (deliver_channel sub_id m sender s)) n

offer : ℕ → ℕ → Publication → Option PushSlot → Receiver → ℕ → Receiver × ℕ
unfolding offer_channel
offer cap sub_id m (some slot) (s, buffers) n = counted (deliver_slot cap m slot buffers s) n
offer cap sub_id m none (s, buffers) n = offer_channel sub_id m s.push_sender (s, buffers) n

offer_if : BrokerConfig → ℕ → ℕ → Bytes → ℕ → Option WalMessageRecord → Receiver → ℕ → Receiver × ℕ
unfolding offer
offer_if c now sub_id topic id none r n = (r, n)
offer_if c now sub_id topic id (some m) r n =
    if not (bytes_eq m.topic topic)
    then (r, n)
    else offer c.slow_consumer_buffer_bytes sub_id (replayed c now id m) r.0.push_slot r n

-- The loop over the records, with the count of deliveries.
offer_records :
    ⦃w : Buf⦄ → BrokerConfig → ℕ → ℕ → Bytes → List WalRecord → Receiver → ℕ → Receiver × ℕ
unfolding offer_if
offer_records c now sub_id topic [] s n = (s, n)
offer_records c now sub_id topic (r ∷ rs) s n =
    let (s', n') = offer_if c now sub_id topic r.id (message_of r) s n in
    offer_records c now sub_id topic rs s' n'

offer_all :
    ⦃w : Buf⦄
    → ℕ
    → ℕ
    → SubscriptionRef
    → Subscriber
    → Broker
    → Outcome LogError (List WalRecord)
    → Broker × Outcome LogError ℕ
unfolding offer_records
offer_all now sub_id r s b (ok records) =
    let ((s', buffers'), n) = offer_records b.config now sub_id r.topic records (s, b.buffers) 0 in
    (record b { store = modify sub_id (λ _. s') b.store; buffers = buffers' }, ok n)
offer_all now sub_id r s b (err e) = (b, err e)
offer_all now sub_id r s b panic = (b, panic)

pub replay_to_subscriber :
    ⦃w : Buf⦄
    → (ℕ → Outcome LogError (List WalRecord))
    → ℕ
    → ℕ
    → ℕ
    → Broker
    → Broker × Outcome LogError ℕ
unfolding offer_all
replay_to_subscriber iterate now sub_id from_offset b =
    if not b.wal then (b, ok 0) else elim (lookup_subscription sub_id b) [
      | none ↦ (b, ok 0)
      | some (r, s) ↦
          offer_all now sub_id r s b (iterate (if from_offset == 0 then 1 else from_offset))
    ]
