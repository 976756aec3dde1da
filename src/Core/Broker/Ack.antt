-- ===== src/Core/Broker/Ack.antt =====
-- core/src/lib.rs: `poll` and `ack` of `Broker`, the cursors of the consumers and their snapshot.
pub mod Keys
pub mod Cursors
pub mod Keeps
pub mod Journal
use blipmq.Prelude.{
  ℕ, zero, ◌+◌, Bool, true, false, ltb, List, [], ◌∷◌, ◌++◌, Option, none, some, if◌then◌else◌,
  Outcome, ok, err, panic,
}
use blipmq.Wire.Buf.{Bytes, Buf}
use blipmq.Core.LogError.{LogError, QosLevel}
use blipmq.Core.WalEntry
use blipmq.Core.WalEntry.{WalAckRecord}
use blipmq.Core.Checkpoint.{Cursor, CheckpointSnapshot, same_key}
use blipmq.Core.TagMap.{get, modify}
use blipmq.Core.Queue
use blipmq.Core.Queue.{QueueEntry, SubscriberQueue}
use blipmq.Core.Subscriber.{Subscriber}
use blipmq.Core.Broker.{SubscriptionRef, Broker}

pub record PolledMessage : Type 0 where
  pub subscription_id : ℕ
  pub topic : Bytes
  pub payload : Bytes
  pub qos : QosLevel
  pub delivery_tag : Option ℕ

-- Writes the queue of a subscriber back.
abbrev pub with_queue : ℕ → SubscriberQueue → Broker → Broker
with_queue id q b = record b { store = modify id (λ s. record s { queue = q }) b.store }

polled :
    ℕ
    → SubscriptionRef
    → Broker
    → SubscriberQueue × Option (QueueEntry × Option ℕ)
    → Broker × Option PolledMessage
polled id r b (q, none) = (with_queue id q b, none)
polled id r b (q, some (entry, tag)) = (
  with_queue id q b,
  some (record {
    subscription_id = id;
    topic = r.topic;
    payload = entry.payload;
    qos = entry.qos;
    delivery_tag = tag;
  }),
)

-- The entry of a subscription, with its subscriber.
unfoldable pub lookup_subscription : ℕ → Broker → Option (SubscriptionRef × Subscriber)
lookup_subscription id b = elim (get id b.subscriptions) [
  | none ↦ none
  | some r ↦ elim (get id b.store) [ none ↦ none | some s ↦ some (r, s) ]
]

pub poll : ℕ → ℕ → Broker → Broker × Option PolledMessage
unfolding polled
poll now id b = elim (lookup_subscription id b) [
  | none ↦ (b, none)
  | some (r, s) ↦ polled id r b (Queue.dequeue b.config.retry_base_delay now s.queue)
]

-- `format!("group:{g}")`
abbrev pub group_key : Bytes → Bytes
group_key g = b'g' ∷ b'r' ∷ b'o' ∷ b'u' ∷ b'p' ∷ b':' ∷ g

unfoldable pub cursor_id : SubscriptionRef → Subscriber → Bytes
cursor_id r s = elim r.group [ some g ↦ group_key g | none ↦ s.client_id ]

-- `entry(key).or_insert(0)`, raised to `wal_id` if that is greater.
pub raise_cursor : Cursor → List Cursor → List Cursor
raise_cursor c [] = c ∷ []
raise_cursor c (d ∷ ds) =
    let rest = raise_cursor c ds in
    if same_key c d then (if ltb d.wal_id c.wal_id then c ∷ ds else d ∷ ds) else d ∷ rest

pub ok_bytes : Outcome LogError Bytes → Option Bytes
ok_bytes (ok bytes) = some bytes
ok_bytes (err e) = none
ok_bytes panic = none

-- The record that is handed to the log, if there is one. It is appended in a task of its own.
pub journal_entry : ⦃b : Buf⦄ → Bool → Cursor → Option Bytes
unfolding ok_bytes
journal_entry false c = none
journal_entry true c = ok_bytes (
    WalEntry.encode
      (WalEntry.ack (record { client_id = c.client_id; topic = c.topic; acked_wal_id = c.wal_id })))

-- What follows once the queue knew the tag. The answer is the result and the record for the log.
pub journal : ⦃w : Buf⦄ → Bytes → Bytes → Option ℕ → Broker → Broker × Bool × Option Bytes
unfolding journal_entry
journal cursor topic none b = (b, true, none)
journal cursor topic (some wal_id) b =
    let c : Cursor = record { client_id = cursor; topic = topic; wal_id = wal_id } in
    (record b { ack_cursors = raise_cursor c b.ack_cursors }, true, journal_entry b.wal c)

pub acked :
    ⦃w : Buf⦄
    → ℕ
    → SubscriptionRef
    → Subscriber
    → Broker
    → SubscriberQueue × Option (Option ℕ)
    → Broker × Bool × Option Bytes
unfolding journal
acked id r s b (q, none) = (b, false, none)
acked id r s b (q, some wal_id) = journal (cursor_id r s) r.topic wal_id (with_queue id q b)

pub ack : ⦃w : Buf⦄ → ℕ → ℕ → Broker → Broker × Bool × Option Bytes
unfolding acked
ack id tag b = elim (lookup_subscription id b) [
  | none ↦ (b, false, none)
  | some (r, s) ↦ acked id r s b (Queue.ack tag s.queue)
]

-- `cursors.values().copied().min().unwrap_or(0)`
min_id : ℕ → List Cursor → ℕ
min_id low [] = low
min_id low (c ∷ cs) = min_id (if ltb c.wal_id low then c.wal_id else low) cs

least : List Cursor → ℕ
unfolding min_id
least [] = 0
least (c ∷ cs) = min_id c.wal_id cs

pub current_snapshot : Broker → CheckpointSnapshot
unfolding least
current_snapshot b = record { snapshot_id = least b.ack_cursors; cursors = b.ack_cursors }

unfoldable pub cursor_of : Bytes → Bytes → List Cursor → Option ℕ
cursor_of client_id topic [] = none
cursor_of client_id topic (c ∷ cs) =
    if same_key (record { client_id = client_id; topic = topic; wal_id = 0 }) c
    then some c.wal_id
    else cursor_of client_id topic cs

pub group_committed_offset : Bytes → Bytes → Broker → Option ℕ
group_committed_offset group topic b = cursor_of (group_key group) topic b.ack_cursors

queue_sum : (SubscriberQueue → ℕ) → List (ℕ × SubscriptionRef) → List (ℕ × Subscriber) → ℕ
queue_sum f [] store = 0
queue_sum f ((id, r) ∷ rs) store =
    elim (get id store) [ none ↦ 0 | some s ↦ f s.queue ] + queue_sum f rs store

pub inflight_message_count : Broker → ℕ
inflight_message_count b = queue_sum Queue.inflight_len b.subscriptions b.store

pub expiration_heap_size : Broker → ℕ
expiration_heap_size b = queue_sum Queue.expiration_heap_len b.subscriptions b.store

pub retry_heap_size : Broker → ℕ
retry_heap_size b = queue_sum Queue.retry_heap_len b.subscriptions b.store
