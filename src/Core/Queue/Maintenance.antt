-- ===== src/Core/Queue/Maintenance.antt =====
-- `SubscriberQueue::maintenance_tick` of core/src/lib.rs: expired messages are dropped, and
-- messages in flight whose retry time has come are put back or given up.
pub mod Conserve
pub mod Heap
pub mod Retry
use blipmq.Prelude.{
  ℕ, ◌+◌, ◌≤◌, ◌≡◌, Bool, true, false, Option, none, some, List, [], ◌∷◌, ◌++◌, ltb, leb, ◌==◌, not,
  if◌then◌else◌,
}
use blipmq.Wire.Buf.{Bytes}
use blipmq.Core.TagMap.{get, insert, remove}
use blipmq.Core.Queue.{
  QueueEntry, Timer, Entries, Inner, SubscriberQueue, DropReason, ttl_expired, max_retries_exceeded,
}

-- What the two loops change.
pub record Tick : Type 0 where
  pub pending : List ℕ
  pub pending_entries : Entries
  pub inflight : Entries
  pub dropped : List (Bytes × DropReason)

-- `entry.ttl.map(|ttl| entry.created_at + ttl == expires_at).unwrap_or(false)`
expires_then : QueueEntry → ℕ → Option ℕ → Bool
expires_then entry expires_at none = false
expires_then entry expires_at (some ttl) = entry.created_at + ttl == expires_at

drop_pending : ℕ → QueueEntry → DropReason → Tick → Tick
drop_pending tag entry reason t = record t {
  pending_entries = remove tag t.pending_entries;
  dropped = t.dropped ++ ((entry.payload, reason) ∷ []);
}

drop_inflight : ℕ → QueueEntry → DropReason → Tick → Tick
drop_inflight tag entry reason t = record t {
  inflight = remove tag t.inflight;
  dropped = t.dropped ++ ((entry.payload, reason) ∷ []);
}

-- One popped expiration. A message that waits is looked at first, and only else one in flight.
expire_inflight : Timer → Option QueueEntry → Tick → Tick
expire_inflight x none t = t
expire_inflight x (some entry) t =
    if expires_then entry x.at entry.ttl then drop_inflight x.tag entry ttl_expired t else t

expire_pending : Timer → Option QueueEntry → Tick → Tick
unfolding expire_inflight
expire_pending x (some entry) t =
    if expires_then entry x.at entry.ttl then drop_pending x.tag entry ttl_expired t else t
expire_pending x none t = expire_inflight x (get x.tag t.inflight) t

expire_one : Timer → Tick → Tick
expire_one x t = expire_pending x (get x.tag t.pending_entries) t

-- The first loop: the expiration heap that is left, and the new state.
expire_loop : ℕ → List Timer → Tick → List Timer × Tick
expire_loop now [] t = ([], t)
expire_loop now (x ∷ xs) t =
    if ltb now x.at then (x ∷ xs, t) else expire_loop now xs (expire_one x t)

-- The entry goes back to the end of `pending`, due at once.
requeue : ℕ → ℕ → QueueEntry → Tick → Tick
requeue now tag entry t = record t {
  inflight = remove tag t.inflight;
  pending = t.pending ++ (entry.tag ∷ []);
  pending_entries = insert entry.tag (record entry { next_delivery_at = now }) t.pending_entries;
}

-- One popped retry.
retry_found : ℕ → ℕ → Timer → Option QueueEntry → Tick → Tick
retry_found now max_retries x none t = t
retry_found now max_retries x (some entry) t =
    if not (entry.next_delivery_at == x.at)
    then t
    else if leb max_retries entry.delivery_attempts
    then drop_inflight x.tag entry max_retries_exceeded t
    else requeue now x.tag entry t

retry_one : ℕ → ℕ → Timer → Tick → Tick
retry_one now max_retries x t = retry_found now max_retries x (get x.tag t.inflight) t

retry_loop : ℕ → ℕ → List Timer → Tick → List Timer × Tick
retry_loop now max_retries [] t = ([], t)
retry_loop now max_retries (x ∷ xs) t =
    if ltb now x.at
    then (x ∷ xs, t)
    else retry_loop now max_retries xs (retry_one now max_retries x t)

start : SubscriberQueue → Tick
start q = record {
  pending = q.inner.pending;
  pending_entries = q.inner.pending_entries;
  inflight = q.inner.inflight;
  dropped = [];
}

pub maintenance_tick : ℕ → ℕ → SubscriberQueue → SubscriberQueue × List (Bytes × DropReason)
maintenance_tick now max_retries q =
    let (expirations, t) = expire_loop now q.inner.expiration_heap (start q) in
    let (retries, u) = retry_loop now max_retries q.inner.retry_heap t in
    (
      record q {
        inner = record (q.inner) {
          pending = u.pending;
          pending_entries = u.pending_entries;
          inflight = u.inflight;
          expiration_heap = expirations;
          retry_heap = retries;
        };
      },
      u.dropped,
    )
