-- ===== src/Core/Queue/Delivery.antt =====
-- What an acknowledgement does to the queue of core/src/lib.rs.
use blipmq.Prelude.{ℕ, ◌≡◌, ◌≢◌, refl, sym, arith, Option, none, some}
use blipmq.Core.LogError.{QosLevel, at_most_once, at_least_once}
use blipmq.Core.TagMap.{get, insert, get-remove, get-insert}
use blipmq.Core.Queue.{
  QueueEntry, Inner, SubscriberQueue, delivered_entry, deliver, finish_dequeue, dequeue,
  pop_pending, ack,
}
use blipmq.Core.Queue.Fifo.{messages}

-- From `q` to `r` exactly the message in flight under `tag` is gone.
pub record Acked (tag : ℕ) (q r : SubscriberQueue) : Type 0 where
  gone : get tag r.inner.inflight ≡ none
  others : (j : ℕ) → j ≢ tag → get j r.inner.inflight ≡ get j q.inner.inflight
  waiting : messages r ≡ messages q

ack-Acked :
    (tag : ℕ) (q : SubscriberQueue) (x : QueueEntry)
    → get tag q.inner.inflight ≡ some x
    → Acked tag q (ack tag q).0 × ((ack tag q).1 ≡ some x.wal_id)
unfolding ack
ack-Acked tag q x h =
    rw (h, ack)
      (
        record {
          gone = ground (arith, get-remove tag tag q.inner.inflight);
          others = λ j n. ground (arith, get-remove tag j q.inner.inflight);
          waiting = refl;
        },
        refl,
      )

ack_absent :
    (tag : ℕ) (q : SubscriberQueue) → get tag q.inner.inflight ≡ none → ack tag q ≡ (q, none)
unfolding ack
ack_absent tag q h = rw (h, ack) refl

deliver-inflight :
    (base_delay now : ℕ) (qos : QosLevel) (y x : QueueEntry) (i : Inner) (tag : ℕ)
    → (deliver base_delay now qos y i).1 ≡ some (x, some tag)
    → get tag (deliver base_delay now qos y i).0.inflight ≡ some x
unfolding deliver
deliver-inflight base_delay now at_most_once y x i tag h = cc
deliver-inflight base_delay now at_least_once y x i tag h =
    let z : QueueEntry = delivered_entry base_delay now y in
    let e : z ≡ x = cc in let t : z.tag ≡ tag = cc in rw (sym t, sym e) hit
  where
    hit :
        get (delivered_entry base_delay now y).tag (
          insert
            (delivered_entry base_delay now y).tag
            (delivered_entry base_delay now y)
            i.inflight)
        ≡ some (delivered_entry base_delay now y)
    hit = ground (
      arith,
      get-insert (delivered_entry base_delay now y).tag (delivered_entry base_delay now y).tag
          (delivered_entry base_delay now y) i.inflight,
    )

finish-inflight :
    (base_delay now : ℕ) (i : Inner) (found : Option QueueEntry) (x : QueueEntry) (tag : ℕ)
    → (finish_dequeue base_delay now i found).1 ≡ some (x, some tag)
    → get tag (finish_dequeue base_delay now i found).0.inflight ≡ some x
unfolding finish_dequeue
finish-inflight base_delay now i none x tag h = cc
finish-inflight base_delay now i (some y) x tag h =
    deliver-inflight base_delay now y.qos y x i tag h

-- When `dequeue` hands out a message with a tag, then `ack` of that tag answers the message's
-- write-ahead log id and takes that message, and no other, out of the messages in flight, the
-- waiting messages stay as they are, and a second `ack` of the tag finds nothing.
pub ack-dequeue :
    (base_delay now : ℕ) (q : SubscriberQueue) (x : QueueEntry) (tag : ℕ)
    → (dequeue base_delay now q).1 ≡ some (x, some tag)
    → let polled = (dequeue base_delay now q).0 in
      let acked = (ack tag polled).0 in
      ((ack tag polled).1 ≡ some x.wal_id)
      × Acked tag polled acked
      × (ack tag acked ≡ (acked, none))
unfolding dequeue
ack-dequeue base_delay now q x tag h =
    let polled = (dequeue base_delay now q).0 in
    let (a, e) = ack-Acked tag polled x there in (e, a, ack_absent tag (ack tag polled).0 a.gone)
  where
    there : get tag (dequeue base_delay now q).0.inner.inflight ≡ some x
    there =
        let r = pop_pending q.inner.pending q.inner.pending_entries in
        finish-inflight base_delay now (record (q.inner) { pending = r.0; pending_entries = r.1 })
          r.2 x tag h
