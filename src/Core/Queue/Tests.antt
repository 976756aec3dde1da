-- ===== src/Core/Queue/Tests.antt =====
-- Runs of the subscriber queue of core/src/lib.rs.
use blipmq.Prelude.{ℕ, ◌+◌, ◌≤◌, ◌≡◌, ◌⊎◌, refl, arith, some, none, [], ◌∷◌, ◌++◌, length, drop}
use blipmq.Wire.Buf.{Bytes}
use blipmq.Core.LogError.{at_least_once}
use blipmq.Core.TagMap.{get, insert}
use blipmq.Core.Queue.{
  peek, QueueEntry, SubscriberQueue, new, new_entry, enqueue, evict, effective_qos, pop_pending,
  finish_dequeue, deliver, delivered_entry, next_attempts, backoff, double_factor, heap_push,
  dequeue, ack,
}
use blipmq.Core.Queue.Lengths.{first_payload, peek-messages}
use blipmq.Core.Queue.Delivery.{Acked, ack-dequeue}
use blipmq.Core.Queue.Maintenance.Retry.{
  AllLater, Scheduled, new-Scheduled, enqueue-Scheduled, dequeue-Scheduled,
  maintenance_tick-settles,
}
use blipmq.Core.Queue.Valid.{
  IsValid, stored, new-IsValid, enqueue-IsValid, enqueue_bound, dequeue-IsValid,
}
use blipmq.Core.Queue.Fifo.{messages, handed_out, messages-enqueue, messages-dequeue}
use blipmq.Core.Queue.Maintenance.{maintenance_tick}
use blipmq.Core.Queue.Maintenance.Conserve.{maintenance_tick-conserves}

abbrev one_byte : Bytes
one_byte = 65 ∷ []

abbrev empty : SubscriberQueue
empty = new at_least_once 1

abbrev put : SubscriberQueue → SubscriberQueue
put q = enqueue one_byte at_least_once (some 7) (some 50) 100 q

-- A queue of capacity 1 that holds a message.
abbrev full : SubscriberQueue
full = put empty

full-IsValid : IsValid full
unfolding new
full-IsValid =
    enqueue-IsValid one_byte at_least_once (some 7) (some 50) 100 empty
      (new-IsValid at_least_once 1) (omega arith)

full_next_tag : full.inner.next_tag ≡ 2
unfolding new enqueue
full_next_tag = refl

enqueue-IsValid_example : IsValid (put full)
enqueue-IsValid_example =
    enqueue-IsValid one_byte at_least_once (some 7) (some 50) 100 full full-IsValid
      (omega (arith, full_next_tag))

enqueue_bound_example :
    (stored (put full) ≤ full.capacity) ⊎ (stored (put full) ≤ length full.inner.inflight + 1)
enqueue_bound_example =
    enqueue_bound one_byte at_least_once (some 7) (some 50) 100 full full-IsValid

messages-enqueue_example :
    (n : ℕ) × (messages (put full)
      ≡ drop n (messages full)
        ++ (new_entry full one_byte at_least_once (some 7) (some 50) 100 ∷ []))
    × ((n ≡ 0) ⊎ (full.capacity + n ≤ stored full + 1))
messages-enqueue_example =
    messages-enqueue one_byte at_least_once (some 7) (some 50) 100 full full-IsValid

messages-dequeue_example :
    ((messages full ≡ [])
      × (messages (dequeue 10 200 full).0 ≡ [])
      × ((dequeue 10 200 full).1 ≡ none))
    ⊎ ((x : QueueEntry) × (messages full ≡ x ∷ messages (dequeue 10 200 full).0)
        × ((dequeue 10 200 full).1 ≡ some (handed_out 10 200 x.qos x)))
messages-dequeue_example = messages-dequeue 10 200 full full-IsValid

-- The message is in flight.
abbrev polled : SubscriberQueue
polled = (dequeue 10 120 full).0

dequeue-IsValid_example : IsValid polled
dequeue-IsValid_example = dequeue-IsValid 10 120 full full-IsValid

maintenance_tick-conserves_example :
    IsValid (maintenance_tick 400 3 polled).0
    × (stored (maintenance_tick 400 3 polled).0 + length (maintenance_tick 400 3 polled).1
        ≡ stored polled)
maintenance_tick-conserves_example =
    maintenance_tick-conserves 400 3 polled (dequeue-IsValid 10 120 full full-IsValid)

full-Scheduled : Scheduled full
full-Scheduled =
    enqueue-Scheduled one_byte at_least_once (some 7) (some 50) 100 empty
      (new-Scheduled at_least_once 1)

maintenance_tick-settles_example :
    let r = (maintenance_tick 400 3 polled).0 in Scheduled r × AllLater 400 r.inner.inflight
maintenance_tick-settles_example =
    maintenance_tick-settles 400 3 polled (dequeue-Scheduled 10 120 full full-Scheduled)

abbrev handed : QueueEntry
handed = record {
  tag = 1;
  payload = one_byte;
  qos = at_least_once;
  wal_id = some 7;
  created_at = 100;
  ttl = some 50;
  delivery_attempts = 1;
  next_delivery_at = 130;
}

dequeue-full : (dequeue 10 120 full).1 ≡ some (handed, some 1)
unfolding new enqueue evict new_entry effective_qos dequeue pop_pending finish_dequeue deliver
    delivered_entry next_attempts backoff double_factor heap_push get insert
dequeue-full = refl

ack-dequeue_example :
    ((ack 1 polled).1 ≡ some (some 7))
    × Acked 1 polled (ack 1 polled).0
    × (ack 1 (ack 1 polled).0 ≡ ((ack 1 polled).0, none))
ack-dequeue_example = ack-dequeue 10 120 full handed 1 dequeue-full

peek-full : peek full ≡ first_payload (messages full)
peek-full = peek-messages full
