-- ===== src/Core/Subscriber.antt =====
-- core/src/lib.rs, `Subscriber`: one subscription's queue and its push channel or shared slot, and the body
-- of the loop over the subscribers in `publish_inner`.
pub mod Delivered
use blipmq.Prelude.{
  ℕ, ◌+◌, ◌%◌, ◌^◌, Bool, true, false, leb, ◌==◌, List, [], ◌∷◌, ◌++◌, length, Option, none, some,
  if◌then◌else◌,
}
use blipmq.Wire.Buf.{Bytes}
use blipmq.Core.LogError.{QosLevel, at_most_once, at_least_once}
use blipmq.Core.TagMap.{get, insert}
use blipmq.Core.Queue.{SubscriberQueue, enqueue, register_push_inflight, cancel_push_inflight}

pub record DeliveryHandle : Type 0 where
  pub subscription_id : ℕ
  pub topic : Bytes
  pub payload : Bytes
  pub qos : QosLevel
  pub delivery_tag : ℕ

-- The handle of a buffer that the subscriptions of a connection share and its writer drains: the
-- buffer's address, with the `DeliveryEncoder`, a function that the network layer gives: the buffer
-- behind a frame for a quality of service, tag, topic and payload.
pub record PushSlot : Type 0 where
  pub address : ℕ
  pub encoder : Bytes → QosLevel → ℕ → Bytes → Bytes → Bytes

-- The shared buffers by their address. `PushSlot::new` makes an empty one.
abbrev pub Buffers : Type 0
Buffers = List (ℕ × Bytes)

pub buffer_at : ℕ → Buffers → Bytes
buffer_at address buffers = elim (get address buffers) [ none ↦ [] | some buf ↦ buf ]

-- The writer of the connection takes what stands in the buffer, if anything does, and leaves its own
-- buffer there: the bytes that it has now, and the shared buffers.
pub swap_buffer : ℕ → Bytes → Buffers → Bytes × Buffers
unfolding buffer_at
swap_buffer address local buffers =
    if length (buffer_at address buffers) == 0
    then (local, buffers)
    else (buffer_at address buffers, insert address local buffers)

-- The sender of a `flume` channel: what it has sent, and the answer of the channel, whether it has
-- room for one more after those.
pub record PushSender : Type 0 where
  pub sent : List DeliveryHandle
  pub has_room : List DeliveryHandle → Bool

pub record Subscriber : Type 0 where
  pub client_id : Bytes
  pub queue : SubscriberQueue
  pub push_sender : Option PushSender
  pub push_slot : Option PushSlot
  pub push_next_tag : ℕ

-- A message on its way to the subscribers, with the time of the publish.
pub record Publication : Type 0 where
  pub topic : Bytes
  pub payload : Bytes
  pub qos : QosLevel
  pub wal_id : Option ℕ
  pub ttl : Option ℕ
  pub now : ℕ

-- Whether the subscriber took the message, or was too slow for it.
pub data Fate : Type 0 where
  delivered dropped : Fate

-- `fetch_add(1)` on the source of the tags.
abbrev pub next_tag : Subscriber → Subscriber
next_tag s = record s { push_next_tag = (s.push_next_tag + 1) % 2 ^ 64 }

pub register : QosLevel → ℕ → Publication → Subscriber → Subscriber
register at_most_once tag m s = s
register at_least_once tag m s = record s {
  queue = register_push_inflight tag m.payload m.wal_id m.ttl m.now s.queue;
}

cancel : QosLevel → ℕ → Subscriber → Subscriber
cancel at_most_once tag s = s
cancel at_least_once tag s = record s { queue = cancel_push_inflight tag s.queue }

-- `if qos == QoSLevel::AtLeastOnce { tag } else { 0 }`
abbrev pub wire_tag : QosLevel → ℕ → ℕ
wire_tag at_most_once tag = 0
wire_tag at_least_once tag = tag

-- A frame behind what stands in the shared buffer.
pub write_slot : PushSlot → Publication → ℕ → Buffers → Buffers
unfolding buffer_at
write_slot slot m tag buffers =
    insert slot.address
      (slot.encoder (buffer_at slot.address buffers) m.qos (wire_tag m.qos tag) m.topic m.payload)
      buffers

-- The shared-buffer push, under the soft cap on the buffer.
pub deliver_slot : ℕ → Publication → PushSlot → Buffers → Subscriber → Subscriber × Buffers × Fate
unfolding write_slot
deliver_slot slow_consumer_buffer_bytes m slot buffers s =
    let tag = s.push_next_tag in
    let s = register m.qos tag m (next_tag s) in
    if leb slow_consumer_buffer_bytes (length (buffer_at slot.address buffers))
    then (cancel m.qos tag s, buffers, dropped)
    else (s, write_slot slot m tag buffers, delivered)

-- The channel-based push.
pub deliver_channel : ℕ → Publication → PushSender → Subscriber → Subscriber × Fate
deliver_channel sub_id m sender s =
    let tag = s.push_next_tag in
    let s = register m.qos tag m (next_tag s) in
    let handle : DeliveryHandle = record {
      subscription_id = sub_id;
      topic = m.topic;
      payload = m.payload;
      qos = m.qos;
      delivery_tag = wire_tag m.qos tag;
    } in
    if sender.has_room sender.sent
    then (
      record s { push_sender = some (record sender { sent = sender.sent ++ (handle ∷ []) }) },
      delivered,
    )
    else (cancel m.qos tag s, dropped)

pub deliver_poll : Publication → Subscriber → Subscriber × Fate
deliver_poll m s =
    (record s { queue = enqueue m.payload m.qos m.wal_id m.ttl m.now s.queue }, delivered)

by_sender : ℕ → Publication → Option PushSender → Subscriber → Subscriber × Fate
by_sender sub_id m (some sender) s = deliver_channel sub_id m sender s
by_sender sub_id m none s = deliver_poll m s

-- A push that no shared buffer takes part in.
abbrev pub beside_buffers : Buffers → Subscriber × Fate → Subscriber × Buffers × Fate
beside_buffers buffers (s, fate) = (s, buffers, fate)

by_slot : ℕ → ℕ → Publication → Option PushSlot → Buffers → Subscriber → Subscriber × Buffers × Fate
unfolding by_sender deliver_slot
by_slot cap sub_id m (some slot) buffers s = deliver_slot cap m slot buffers s
by_slot cap sub_id m none buffers s = beside_buffers buffers (by_sender sub_id m s.push_sender s)

pub deliver_to : ℕ → ℕ → Publication → Buffers → Subscriber → Subscriber × Buffers × Fate
unfolding by_slot
deliver_to slow_consumer_buffer_bytes sub_id m buffers s =
    by_slot slow_consumer_buffer_bytes sub_id m s.push_slot buffers s
