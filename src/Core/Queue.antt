-- ===== src/Core/Queue.antt =====
-- core/src/lib.rs, `SubscriberQueue`: the messages of one subscriber, those that wait to be polled
-- and those in flight until their acknowledgement. An `Instant` is its number of nanoseconds, a
-- `Duration` too, and `Instant::now()` is an argument. A `BinaryHeap` of `Reverse` entries is the
-- list of its entries in the order in which `pop` gives them. The mutex makes each method one step.
pub mod Valid
pub mod Fifo
pub mod Delivery
pub mod Lengths
pub mod Maintenance
pub mod Tests
use blipmq.Prelude.{
  ℕ, zero, suc, ◌+◌, ◌-◌, ◌*◌, ◌%◌, ◌^◌, ◌≤◌, ◌<◌, ◌≡◌, Bool, true, false, ◌&&◌, ◌||◌, not, Option,
  none, some, is_some, List, [], ◌∷◌, ◌++◌, length, ltb, leb, ◌==◌, if◌then◌else◌,
}
use blipmq.Wire.Buf.{Bytes}
use blipmq.Core.LogError.{QosLevel, at_most_once, at_least_once}
use blipmq.Core.TagMap.{get, insert, remove}

pub record QueueEntry : Type 0 where
  pub tag : ℕ
  pub payload : Bytes
  pub qos : QosLevel
  pub wal_id : Option ℕ
  pub created_at : ℕ
  pub ttl : Option ℕ
  pub delivery_attempts : ℕ
  pub next_delivery_at : ℕ

-- `ExpirationEntry` and `RetryEntry`: a time, and the tag of an entry.
pub record Timer : Type 0 where
  pub at : ℕ
  pub tag : ℕ

abbrev pub Entries : Type 0
Entries = List (ℕ × QueueEntry)

pub record Inner : Type 0 where
  pub next_tag : ℕ
  pub pending : List ℕ
  pub pending_entries : Entries
  pub inflight : Entries
  pub expiration_heap : List Timer
  pub retry_heap : List Timer

pub record SubscriberQueue : Type 0 where
  pub default_qos : QosLevel
  pub capacity : ℕ
  pub inner : Inner

pub data DropReason : Type 0 where
  ttl_expired max_retries_exceeded : DropReason

-- `Ord` of the heap entries: by time, then by tag.
timer_before : Timer → Timer → Bool
timer_before x y = ltb x.at y.at || (x.at == y.at && leb x.tag y.tag)

-- `heap.push(Reverse(x))`
pub heap_push : Timer → List Timer → List Timer
unfolding timer_before
heap_push x [] = x ∷ []
heap_push x (y ∷ ys) = if timer_before x y then x ∷ y ∷ ys else y ∷ heap_push x ys

pub new : QosLevel → ℕ → SubscriberQueue
new default_qos capacity = record {
  default_qos = default_qos;
  capacity = capacity;
  inner = record {
    next_tag = 1;
    pending = [];
    pending_entries = [];
    inflight = [];
    expiration_heap = [];
    retry_heap = [];
  };
}

-- The loop of `enqueue` that makes room: it drops from the front of `pending`, whose tags may be
-- stale, and stops when `pending` is empty.
pub evict : ℕ → ℕ → List ℕ → Entries → List ℕ × Entries
evict capacity inflight_len [] entries = ([], entries)
evict capacity inflight_len (tag ∷ tags) entries =
    if leb capacity (length entries + inflight_len)
    then evict capacity inflight_len tags (remove tag entries)
    else (tag ∷ tags, entries)

effective_qos : QosLevel → QosLevel → QosLevel
effective_qos at_least_once at_least_once = at_least_once
effective_qos _ _ = at_most_once

-- The push onto the expiration heap, if the entry has a ttl.
push_expiration : QueueEntry → Option ℕ → List Timer → List Timer
push_expiration entry none heap = heap
push_expiration entry (some ttl) heap =
    heap_push (record { at = entry.created_at + ttl; tag = entry.tag }) heap

-- The entry that `enqueue` stores.
pub new_entry : SubscriberQueue → Bytes → QosLevel → Option ℕ → Option ℕ → ℕ → QueueEntry
new_entry q payload message_qos wal_id ttl now = record {
  tag = q.inner.next_tag;
  payload = payload;
  qos = effective_qos q.default_qos message_qos;
  wal_id = wal_id;
  created_at = now;
  ttl = ttl;
  delivery_attempts = 0;
  next_delivery_at = now;
}

pub enqueue : Bytes → QosLevel → Option ℕ → Option ℕ → ℕ → SubscriberQueue → SubscriberQueue
enqueue payload message_qos wal_id ttl now q =
    let i = q.inner in
    let (pending, entries) = evict q.capacity (length i.inflight) i.pending i.pending_entries in
    let entry = new_entry q payload message_qos wal_id ttl now in
    record q {
      inner = record i {
        next_tag = (i.next_tag + 1) % 2 ^ 64;
        pending = pending ++ (entry.tag ∷ []);
        pending_entries = insert entry.tag entry entries;
        expiration_heap = push_expiration entry ttl i.expiration_heap;
      };
    }

pub register_push_inflight : ℕ → Bytes → Option ℕ → Option ℕ → ℕ → SubscriberQueue → SubscriberQueue
register_push_inflight tag payload wal_id ttl now q =
    let i = q.inner in
    let entry : QueueEntry = record {
      tag = tag;
      payload = payload;
      qos = at_least_once;
      wal_id = wal_id;
      created_at = now;
      ttl = ttl;
      delivery_attempts = 1;
      next_delivery_at = now;
    } in
    record q {
      inner = record i {
        expiration_heap = push_expiration entry ttl i.expiration_heap;
        inflight = insert entry.tag entry i.inflight;
      };
    }

pub cancel_push_inflight : ℕ → SubscriberQueue → SubscriberQueue
cancel_push_inflight tag q = record q {
  inner = record (q.inner) { inflight = remove tag q.inner.inflight };
}

-- The loop of `dequeue`: stale tags are skipped. The tags and entries that are left are returned
-- with the entry.
pub pop_pending : List ℕ → Entries → List ℕ × Entries × Option QueueEntry
pop_pending [] entries = ([], entries, none)
pop_pending (tag ∷ tags) entries = elim (get tag entries) [
  | some entry ↦ (tags, remove tag entries, some entry)
  | none ↦ pop_pending tags entries
]

-- `factor.saturating_mul(2)` on `u32`, `rounds` times.
double_factor : ℕ → ℕ → ℕ
double_factor zero factor = factor
double_factor (suc rounds) factor =
    double_factor rounds (if leb (2 ^ 32) (factor * 2) then 2 ^ 32 - 1 else factor * 2)

-- `saturating_add(1)` on the `u32` of attempts.
next_attempts : ℕ → ℕ
next_attempts n = if leb (2 ^ 32) (n + 1) then 2 ^ 32 - 1 else n + 1

-- `base_delay.checked_mul(factor).unwrap_or(base_delay)`: a `Duration` holds less than 2 ^ 64
-- seconds.
backoff : ℕ → ℕ → ℕ
unfolding double_factor
backoff base_delay attempts =
    let shift = if ltb (attempts - 1) 31 then attempts - 1 else 31 in
    let factor = double_factor shift 1 in
    if ltb (base_delay * factor) (2 ^ 64 * 1000000000) then base_delay * factor else base_delay

-- The entry as `dequeue` puts it in flight.
pub delivered_entry : ℕ → ℕ → QueueEntry → QueueEntry
delivered_entry base_delay now entry =
    let attempts = next_attempts entry.delivery_attempts in
    record entry {
      delivery_attempts = attempts;
      next_delivery_at = now + backoff base_delay attempts;
    }

-- The end of `dequeue`, by the quality of service of the entry that was found.
deliver : ℕ → ℕ → QosLevel → QueueEntry → Inner → Inner × Option (QueueEntry × Option ℕ)
deliver base_delay now at_most_once entry i = (i, some (entry, none))
deliver base_delay now at_least_once entry i =
    let entry = delivered_entry base_delay now entry in
    (
      record i {
        inflight = insert entry.tag entry i.inflight;
        retry_heap =
            heap_push (record { at = entry.next_delivery_at; tag = entry.tag }) i.retry_heap;
      },
      some (entry, some entry.tag),
    )

finish_dequeue : ℕ → ℕ → Inner → Option QueueEntry → Inner × Option (QueueEntry × Option ℕ)
finish_dequeue base_delay now i none = (i, none)
finish_dequeue base_delay now i (some entry) = deliver base_delay now entry.qos entry i

pub dequeue : ℕ → ℕ → SubscriberQueue → SubscriberQueue × Option (QueueEntry × Option ℕ)
dequeue base_delay now q =
    let (pending, entries, found) = pop_pending q.inner.pending q.inner.pending_entries in
    let (inner, result) =
      finish_dequeue base_delay now
        (record (q.inner) { pending = pending; pending_entries = entries }) found in
    (record q { inner = inner }, result)

unfoldable pub ack : ℕ → SubscriberQueue → SubscriberQueue × Option (Option ℕ)
ack tag q = elim (get tag q.inner.inflight) [
  | none ↦ (q, none)
  | some entry ↦ (
    record q { inner = record (q.inner) { inflight = remove tag q.inner.inflight } },
    some entry.wal_id,
  )
]

-- `pending.iter().find_map(…)`
find_payload : List ℕ → Entries → Option Bytes
find_payload [] entries = none
find_payload (tag ∷ tags) entries =
    let later = find_payload tags entries in
    elim (get tag entries) [ some entry ↦ some entry.payload | none ↦ later ]

pub peek : SubscriberQueue → Option Bytes
peek q = find_payload q.inner.pending q.inner.pending_entries

pub inflight_len : SubscriberQueue → ℕ
inflight_len q = length q.inner.inflight

pub expiration_heap_len : SubscriberQueue → ℕ
expiration_heap_len q = length q.inner.expiration_heap

pub retry_heap_len : SubscriberQueue → ℕ
retry_heap_len q = length q.inner.retry_heap
