-- ===== src/Core/Broker/Replay.antt =====
-- core/src/lib.rs: `replay_from_wal_with_checkpoint` of `Broker`. `iterate`
-- is `iterate_from` of the log, the records from an id on. The time is read once for a replay.
pub mod Cursors
pub mod Keeps
pub mod Redeliver
use blipmq.Prelude.{
  ℕ, zero, suc, ◌+◌, Bool, true, false, ltb, leb, ◌==◌, List, [], ◌∷◌, Option, none, some,
  if◌then◌else◌, not, Outcome, ok, err, panic,
}
use blipmq.Wire.Buf.{Bytes, Buf}
use blipmq.Core.LogError.{LogError}
use blipmq.Core.WalEntry
use blipmq.Core.WalEntry.{WalEntry, WalMessageRecord, message}
use blipmq.Core.Checkpoint.{Cursor, CheckpointSnapshot}
use blipmq.Core.Subject.{bytes_eq}
use blipmq.Core.TagMap.{get, modify}
use blipmq.Core.NameMap.{find}
use blipmq.Core.Config.{BrokerConfig}
use blipmq.Core.Subscriber.{
  Buffers, write_slot, Subscriber, Publication, PushSlot, PushSender, Fate, delivered, dropped,
  next_tag, register, wire_tag, deliver_slot, deliver_channel, deliver_poll,
}
use blipmq.Core.Broker.{Topic, SubscriptionRef, Broker}
use blipmq.Core.Broker.Publish.{count_delivery}
use blipmq.Wal.Record.{WalRecord}
use blipmq.Core.Broker.Ack.{lookup_subscription, raise_cursor, cursor_of}

-- `saturating_add(1)` on `u64`.
abbrev next_id : ℕ → ℕ
next_id id = count_delivery id

-- A record that does not decode, or is an acknowledgement, is passed over.
the_message : Outcome LogError WalEntry → Option WalMessageRecord
the_message (ok (message m)) = some m
the_message _ = none

pub message_of : ⦃w : Buf⦄ → WalRecord → Option WalMessageRecord
unfolding the_message
message_of r = the_message (WalEntry.decode r.payload)

-- What a record hands to a subscriber: its message under its id.
pub replayed : BrokerConfig → ℕ → ℕ → WalMessageRecord → Publication
replayed c now id m = record {
  topic = m.topic;
  payload = m.payload;
  qos = m.qos;
  wal_id = some id;
  ttl = some c.message_ttl;
  now = now;
}

-- The first pass, over the acknowledgements.
pub refine : Outcome LogError WalEntry → List Cursor → List Cursor
refine (ok (WalEntry.ack a)) cursors =
    raise_cursor (record { client_id = a.client_id; topic = a.topic; wal_id = a.acked_wal_id })
      cursors
refine _ cursors = cursors

pub refine_all : ⦃w : Buf⦄ → List WalRecord → List Cursor → List Cursor
unfolding refine
refine_all [] cursors = cursors
refine_all (r ∷ rs) cursors = refine_all rs (refine (WalEntry.decode r.payload) cursors)

-- The second pass: what a message does to a subscriber.
fill : Publication → Subscriber → Subscriber
fill m s = register m.qos s.push_next_tag m (next_tag s)

pub redeliver : Publication → Subscriber → Subscriber
unfolding fill
redeliver m s = elim s.push_slot [ some slot ↦ fill m s | none ↦ (deliver_poll m s).0 ]

-- And to the shared buffer of its slot, which is filled without the soft cap here.
fill_buffer : Publication → Subscriber → Buffers → Buffers
fill_buffer m s buffers = elim s.push_slot [
  | some slot ↦ write_slot slot m s.push_next_tag buffers
  | none ↦ buffers
]

pub or_zero : Option ℕ → ℕ
or_zero none = 0
or_zero (some n) = n

-- A message up to the cursor of the consumer is skipped.
redeliver_after : List Cursor → ℕ → Publication → Subscriber → Subscriber
unfolding redeliver or_zero
redeliver_after cursors id m s =
    if leb id (or_zero (cursor_of s.client_id m.topic cursors)) then s else redeliver m s

redeliver_to :
    List Cursor → ℕ → Publication → List ℕ → List (ℕ × Subscriber) → List (ℕ × Subscriber)
unfolding redeliver_after
redeliver_to cursors id m [] store = store
redeliver_to cursors id m (i ∷ is) store =
    redeliver_to cursors id m is (modify i (redeliver_after cursors id m) store)

fill_buffer_after : List Cursor → ℕ → Publication → Option Subscriber → Buffers → Buffers
unfolding fill_buffer or_zero
fill_buffer_after cursors id m none buffers = buffers
fill_buffer_after cursors id m (some s) buffers =
    if leb id (or_zero (cursor_of s.client_id m.topic cursors))
    then buffers
    else fill_buffer m s buffers

-- The buffers behind `redeliver_to`.
fill_buffers_to : List Cursor → ℕ → Publication → List ℕ → List (ℕ × Subscriber) → Buffers → Buffers
unfolding fill_buffer_after redeliver_after
fill_buffers_to cursors id m [] store buffers = buffers
fill_buffers_to cursors id m (i ∷ is) store buffers =
    fill_buffers_to cursors id m is (modify i (redeliver_after cursors id m) store)
      (fill_buffer_after cursors id m (get i store) buffers)

unfoldable pub members_of : Option Topic → List ℕ
members_of none = []
members_of (some t) = t.subscribers

redeliver_record :
    List Cursor
    → ℕ
    → Broker
    → ℕ
    → Option WalMessageRecord
    → List (ℕ × Subscriber)
    → List (ℕ × Subscriber)
unfolding redeliver_to members_of
redeliver_record cursors now b id none store = store
redeliver_record cursors now b id (some m) store =
    redeliver_to cursors id (replayed b.config now id m) (members_of (find m.topic b.topics)) store

redeliver_records :
    ⦃w : Buf⦄
    → List Cursor
    → ℕ
    → Broker
    → List WalRecord
    → List (ℕ × Subscriber)
    → List (ℕ × Subscriber)
unfolding redeliver_record
redeliver_records cursors now b [] store = store
redeliver_records cursors now b (r ∷ rs) store =
    redeliver_records cursors now b rs (redeliver_record cursors now b r.id (message_of r) store)

fill_buffers_record :
    List Cursor
    → ℕ
    → Broker
    → ℕ
    → Option WalMessageRecord
    → List (ℕ × Subscriber)
    → Buffers
    → Buffers
unfolding fill_buffers_to members_of
fill_buffers_record cursors now b id none store buffers = buffers
fill_buffers_record cursors now b id (some m) store buffers =
    fill_buffers_to cursors id (replayed b.config now id m) (members_of (find m.topic b.topics))
      store buffers

-- The buffers behind `redeliver_records`.
fill_buffers :
    ⦃w : Buf⦄
    → List Cursor
    → ℕ
    → Broker
    → List WalRecord
    → List (ℕ × Subscriber)
    → Buffers
    → Buffers
unfolding fill_buffers_record redeliver_record
fill_buffers cursors now b [] store buffers = buffers
fill_buffers cursors now b (r ∷ rs) store buffers =
    fill_buffers cursors now b rs (redeliver_record cursors now b r.id (message_of r) store)
      (fill_buffers_record cursors now b r.id (message_of r) store buffers)

pub raise_all : List Cursor → List Cursor → List Cursor
raise_all [] live = live
raise_all (c ∷ cs) live = raise_all cs (raise_cursor c live)

unfoldable pub start_of : Option CheckpointSnapshot → List Cursor × ℕ
start_of none = ([], 1)
start_of (some cp) = (cp.cursors, next_id cp.snapshot_id)

recover :
    ⦃w : Buf⦄
    → ℕ
    → List Cursor
    → Broker
    → Outcome LogError (List WalRecord)
    → Broker × Outcome LogError (Unit {0})
unfolding redeliver_records fill_buffers
recover now saved b (ok records) =
    let cursors = refine_all records saved in
    (
      record b {
        store = redeliver_records cursors now b records b.store;
        buffers = fill_buffers cursors now b records b.store b.buffers;
        ack_cursors = raise_all cursors b.ack_cursors;
      },
      ok tt,
    )
recover now saved b (err e) = (b, err e)
recover now saved b panic = (b, panic)

pub replay_from_wal_with_checkpoint :
    ⦃w : Buf⦄
    → (ℕ → Outcome LogError (List WalRecord))
    → ℕ
    → Option CheckpointSnapshot
    → Broker
    → Broker × Outcome LogError (Unit {0})
unfolding recover start_of
replay_from_wal_with_checkpoint iterate now checkpoint b =
    if not b.wal
    then (b, ok tt)
    else (let (saved, start_from) = start_of checkpoint in recover now saved b (iterate start_from))

pub replay_from_wal :
    ⦃w : Buf⦄
    → (ℕ → Outcome LogError (List WalRecord))
    → ℕ
    → Broker
    → Broker × Outcome LogError (Unit {0})
replay_from_wal iterate now b = replay_from_wal_with_checkpoint iterate now none b
