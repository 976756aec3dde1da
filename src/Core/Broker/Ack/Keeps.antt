-- ===== src/Core/Broker/Ack/Keeps.antt =====
-- `poll` and `ack` of core/src/lib.rs keep the registry.
use blipmq.Prelude.{ℕ, Option-cases, inl, inr, Option, none, some}
use blipmq.Wire.Buf.{Bytes, Buf}
use blipmq.Core.Queue.{QueueEntry, SubscriberQueue}
use blipmq.Core.Subscriber.{Subscriber}
use blipmq.Core.Broker.{SubscriptionRef, Broker}
use blipmq.Core.Broker.Registry.{IsRegistry, store-IsRegistry, cursors-IsRegistry}
use blipmq.Core.Broker.Ack.{
  lookup_subscription, polled, poll, with_queue, journal, acked, ack, cursor_id,
}

polled-IsRegistry :
    (id : ℕ) (r : SubscriptionRef) (b : Broker) (q : SubscriberQueue)
    (o : Option (QueueEntry × Option ℕ))
    → IsRegistry b
    → IsRegistry (polled id r b (q, o)).0
unfolding polled
polled-IsRegistry id r b q none v = store-IsRegistry b _ v
polled-IsRegistry id r b q (some (x, tag)) v = store-IsRegistry b _ v

pub poll-IsRegistry : (now id : ℕ) (b : Broker) → IsRegistry b → IsRegistry (poll now id b).0
unfolding poll
poll-IsRegistry now id b v = elim (Option-cases (lookup_subscription id b)) [
  | inl absent ↦ rw (absent, poll) v
  | inr ((r, s), e) ↦ rw (e, poll) (polled-IsRegistry id r b _ _ v)
]

journal-IsRegistry :
    ⦃w : Buf⦄ (cursor topic : Bytes) (wal_id : Option ℕ) (b : Broker)
    → IsRegistry b
    → IsRegistry (journal cursor topic wal_id b).0
unfolding journal
journal-IsRegistry cursor topic none b v = v
journal-IsRegistry cursor topic (some wal_id) b v = cursors-IsRegistry b _ v

acked-IsRegistry :
    ⦃w : Buf⦄ (id : ℕ) (r : SubscriptionRef) (s : Subscriber) (b : Broker) (q : SubscriberQueue)
    (o : Option (Option ℕ))
    → IsRegistry b
    → IsRegistry (acked id r s b (q, o)).0
unfolding acked
acked-IsRegistry id r s b q none v = v
acked-IsRegistry id r s b q (some wal_id) v =
    journal-IsRegistry (cursor_id r s) r.topic wal_id (with_queue id q b) (store-IsRegistry b _ v)

pub ack-IsRegistry :
    ⦃w : Buf⦄ (id tag : ℕ) (b : Broker) → IsRegistry b → IsRegistry (ack id tag b).0
unfolding ack
ack-IsRegistry id tag b v = elim (Option-cases (lookup_subscription id b)) [
  | inl absent ↦ rw (absent, ack) v
  | inr ((r, s), e) ↦ rw (e, ack) (acked-IsRegistry id r s b _ _ v)
]
