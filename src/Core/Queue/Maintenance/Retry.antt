-- ===== src/Core/Queue/Maintenance/Retry.antt =====
-- The retry heap of core/src/lib.rs: every polled message in flight has its timer on the heap, so
-- that a maintenance tick leaves none in flight whose retry time has come.
use blipmq.Prelude.{
  ℕ, ◌<◌, ◌≡◌, refl, arith, Bool-cases, true, ltb, leb, ◌==◌, Option, none, some, List, [], ◌∷◌,
  Option-cases, inl, inr, not,
}
use blipmq.Wire.Buf.{Bytes}
use blipmq.Core.LogError.{QosLevel, at_most_once, at_least_once}
use blipmq.Core.TagMap.{get, insert, remove, get-remove-some, get-insert-some}
use blipmq.Core.Queue.{
  QueueEntry, Timer, Entries, Inner, SubscriberQueue, heap_push, new, enqueue, delivered_entry,
  deliver, finish_dequeue, dequeue, pop_pending, ack,
}
use blipmq.Core.Queue.Maintenance.Heap.{timed, Sorted, timed-push, heap_push-Sorted, All-timed}
use blipmq.Core.Queue.Maintenance.{
  Tick, expires_then, drop_pending, drop_inflight, expire_inflight, expire_pending, expire_one,
  expire_loop, requeue, retry_found, retry_one, retry_loop, start, maintenance_tick,
}

abbrev pub AllTimed : List Timer → Entries → Type 0
AllTimed heap m =
    (k : ℕ) (x : QueueEntry) → get k m ≡ some x → timed x.next_delivery_at k heap ≡ true

-- The heap is in order, and has the timer of every message in flight.
abbrev pub Scheduled : SubscriberQueue → Type 0
Scheduled q = Sorted q.inner.retry_heap × AllTimed q.inner.retry_heap q.inner.inflight

-- A smaller map needs no more timers.
AllTimed-remove :
    (k : ℕ) (heap : List Timer) (m : Entries) → AllTimed heap m → AllTimed heap (remove k m)
AllTimed-remove k heap m a j x h = a j x (get-remove-some k j x m h).0

AllTimed-insert :
    (x : Timer) (heap : List Timer) (y : QueueEntry) (m : Entries)
    → y.next_delivery_at ≡ x.at
    → y.tag ≡ x.tag
    → AllTimed heap m
    → AllTimed (heap_push x heap) (insert y.tag y m)
unfolding timed
AllTimed-insert x heap y m e f a j z h =
    rw (timed-push z.next_delivery_at j x heap) (elim (get-insert-some y.tag j y z m h) [
      | inl (same, there) ↦ let g : z.next_delivery_at ≡ y.next_delivery_at = cc in ground arith
      | inr (other, there) ↦ ground (arith, a j z there)
    ])

-- The first loop takes messages out of flight only.
expire_one-AllTimed :
    (heap : List Timer) (x : Timer) (t : Tick)
    → AllTimed heap t.inflight
    → AllTimed heap (expire_one x t).inflight
unfolding expire_one expire_pending expire_inflight drop_pending drop_inflight
expire_one-AllTimed heap x t a = elim (Option-cases (get x.tag t.pending_entries)) [
  | inr (y, there) ↦ rw there (elim (Bool-cases (expires_then y x.at y.ttl)) [
    | inl due ↦ rw due a
    | inr later ↦ rw later a
  ])
  | inl absent ↦ rw absent (elim (Option-cases (get x.tag t.inflight)) [
    | inl none_there ↦ rw none_there a
    | inr (y, there) ↦ rw there (elim (Bool-cases (expires_then y x.at y.ttl)) [
      | inl due ↦ rw due (AllTimed-remove x.tag heap t.inflight a)
      | inr later ↦ rw later a
    ])
  ])
]

expire_loop-AllTimed :
    (heap : List Timer) (now : ℕ) (xs : List Timer) (t : Tick)
    → AllTimed heap t.inflight
    → AllTimed heap (expire_loop now xs t).1.inflight
unfolding expire_loop
expire_loop-AllTimed heap now [] t a = a
expire_loop-AllTimed heap now (x ∷ xs) t a = elim (Bool-cases (ltb now x.at)) [
  | inl later ↦ rw later a
  | inr due ↦
      rw due (expire_loop-AllTimed heap now xs (expire_one x t) (expire_one-AllTimed heap x t a))
]

-- A popped timer is needed no more.
retry_one-AllTimed :
    (now max_retries : ℕ) (x : Timer) (xs : List Timer) (t : Tick)
    → AllTimed (x ∷ xs) t.inflight
    → AllTimed xs (retry_one now max_retries x t).inflight
unfolding retry_one retry_found requeue drop_inflight timed
retry_one-AllTimed now max_retries x xs t a = elim (Option-cases (get x.tag t.inflight)) [
  | inl absent ↦ rw absent (λ j z h. ground (arith, a j z h))
  | inr (y, there) ↦ rw there (elim (Bool-cases (not (y.next_delivery_at == x.at))) [
    | inl stale ↦ rw stale (not_popped y there stale)
    | inr current ↦ rw current (elim (Bool-cases (leb max_retries y.delivery_attempts)) [
      | inl spent ↦ rw spent removed
      | inr again ↦ rw again removed
    ])
  ])
]
  where
    not_popped :
        (y : QueueEntry)
        → get x.tag t.inflight ≡ some y
        → not (y.next_delivery_at == x.at) ≡ true
        → AllTimed xs t.inflight
    not_popped y there stale j z h = elim (Bool-cases (x.tag == j)) [
      | inr other ↦ ground (arith, a j z h)
      | inl same ↦
          let e : x.tag ≡ j = ground arith in
          let g : z ≡ y = cc in
          let f : z.next_delivery_at ≡ y.next_delivery_at = cc in ground (arith, a j z h)
    ]

    removed : AllTimed xs (remove x.tag t.inflight)
    removed j z h =
        let (was, other) = get-remove-some x.tag j z t.inflight h in ground (arith, a j z was)

-- No message in flight is due at `now`.
abbrev pub AllLater : ℕ → Entries → Type 0
AllLater now m = (k : ℕ) (x : QueueEntry) → get k m ≡ some x → now < x.next_delivery_at

AllTimed-AllLater :
    (now : ℕ) (x : Timer) (xs : List Timer) (m : Entries)
    → now < x.at
    → Sorted (x ∷ xs)
    → AllTimed (x ∷ xs) m
    → AllLater now m
unfolding timed
AllTimed-AllLater now x xs m h s a k z there =
    ground (arith, a k z there, All-timed x.at z.next_delivery_at k xs s.0)

retry_loop-settles :
    (now max_retries : ℕ) (xs : List Timer) (t : Tick)
    → Sorted xs
    → AllTimed xs t.inflight
    → let r = retry_loop now max_retries xs t in
      Sorted r.0 × AllTimed r.0 r.1.inflight × AllLater now r.1.inflight
unfolding retry_loop
retry_loop-settles now max_retries [] t s a =
    (tt, a, λ k x h. absurd (unfold timed in cc (a k x h)))
retry_loop-settles now max_retries (x ∷ xs) t s a = elim (Bool-cases (ltb now x.at)) [
  | inl later ↦ rw later (s, a, AllTimed-AllLater now x xs t.inflight (ground arith) s a)
  | inr due ↦ rw due (
      retry_loop-settles now max_retries xs (retry_one now max_retries x t) s.1
        (retry_one-AllTimed now max_retries x xs t a))
]

-- A tick leaves no message in flight whose retry time has come, and keeps the timers of the others,
-- if every message in flight had its timer on an ordered heap before.
pub maintenance_tick-settles :
    (now max_retries : ℕ) (q : SubscriberQueue)
    → Scheduled q
    → let r = (maintenance_tick now max_retries q).0 in Scheduled r × AllLater now r.inner.inflight
unfolding maintenance_tick start
maintenance_tick-settles now max_retries q (s, a) =
    let t = (expire_loop now q.inner.expiration_heap (start q)).1 in
    let b = expire_loop-AllTimed q.inner.retry_heap now q.inner.expiration_heap (start q) a in
    let (o, c, d) = retry_loop-settles now max_retries q.inner.retry_heap t s b in ((o, c), d)

pub new-Scheduled : (default_qos : QosLevel) (capacity : ℕ) → Scheduled (new default_qos capacity)
unfolding new get
new-Scheduled default_qos capacity = (tt, λ k x h. cc)

pub enqueue-Scheduled :
    (payload : Bytes) (qos : QosLevel) (wal_id ttl : Option ℕ) (now : ℕ) (q : SubscriberQueue)
    → Scheduled q
    → Scheduled (enqueue payload qos wal_id ttl now q)
unfolding enqueue
enqueue-Scheduled payload qos wal_id ttl now q v = v

pub ack-Scheduled : (tag : ℕ) (q : SubscriberQueue) → Scheduled q → Scheduled (ack tag q).0
unfolding ack
ack-Scheduled tag q (s, a) = elim (Option-cases (get tag q.inner.inflight)) [
  | inl absent ↦ rw (absent, ack) (s, a)
  | inr (x, there) ↦ rw (there, ack) (s, AllTimed-remove tag q.inner.retry_heap q.inner.inflight a)
]

deliver-Scheduled :
    (base_delay now : ℕ) (qos : QosLevel) (x : QueueEntry) (i : Inner)
    → Sorted i.retry_heap × AllTimed i.retry_heap i.inflight
    → let j = (deliver base_delay now qos x i).0 in
      Sorted j.retry_heap × AllTimed j.retry_heap j.inflight
unfolding deliver
deliver-Scheduled base_delay now at_most_once x i v = v
deliver-Scheduled base_delay now at_least_once x i (s, a) =
    let y = delivered_entry base_delay now x in
    let z : Timer = record { at = y.next_delivery_at; tag = y.tag } in
    (heap_push-Sorted z i.retry_heap s, AllTimed-insert z i.retry_heap y i.inflight refl refl a)

finish-Scheduled :
    (base_delay now : ℕ) (i : Inner) (found : Option QueueEntry)
    → Sorted i.retry_heap × AllTimed i.retry_heap i.inflight
    → let j = (finish_dequeue base_delay now i found).0 in
      Sorted j.retry_heap × AllTimed j.retry_heap j.inflight
unfolding finish_dequeue
finish-Scheduled base_delay now i none v = v
finish-Scheduled base_delay now i (some x) v = deliver-Scheduled base_delay now x.qos x i v

-- `dequeue` schedules the retry of what it puts in flight.
pub dequeue-Scheduled :
    (base_delay now : ℕ) (q : SubscriberQueue)
    → Scheduled q
    → Scheduled (dequeue base_delay now q).0
unfolding dequeue
dequeue-Scheduled base_delay now q v =
    let r = pop_pending q.inner.pending q.inner.pending_entries in
    finish-Scheduled base_delay now (record (q.inner) { pending = r.0; pending_entries = r.1 }) r.2
      v
