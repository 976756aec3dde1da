-- ===== src/Core/Queue/Valid.antt =====
-- The invariant of a queue that is polled, kept by the methods of core/src/lib.rs, and the bound on
-- what `enqueue` stores. Tags do not wrap: that takes 2 ^ 64 messages.
pub mod Store
use blipmq.Prelude.{
  ℕ, suc, ◌+◌, ◌%◌, ◌^◌, ◌≤◌, ◌<◌, ◌≡◌, ◌⊎◌, subst, sym, ap, refl, arith, Bool-cases, Option, none,
  some, List, [], ◌∷◌, ◌++◌, length, leb, false, true, Option-cases, inl, inr,
}
use blipmq.Wire.Buf.{Bytes}
use blipmq.Core.LogError.{QosLevel, at_most_once, at_least_once}
use blipmq.Core.TagMap.{
  get, insert, remove, remove-absent, length-remove, length-insert, length-remove-le,
}
use blipmq.Core.Queue.{
  QueueEntry, Entries, Inner, SubscriberQueue, new, evict, new_entry, enqueue, pop_pending,
  delivered_entry, deliver, finish_dequeue, dequeue, ack, cancel_push_inflight,
  register_push_inflight,
}
use Store.{IsStore, IsStore-pop, IsStore-enqueue, IsStore-deliver, IsStore-drop_inflight}

abbrev pub IsValid : SubscriberQueue → Type 0
IsValid q = IsStore q.inner.next_tag q.inner.pending q.inner.pending_entries q.inner.inflight

-- The messages that the queue holds.
abbrev pub stored : SubscriberQueue → ℕ
stored q = length q.inner.pending_entries + length q.inner.inflight

pub new-IsValid : (default_qos : QosLevel) (capacity : ℕ) → IsValid (new default_qos capacity)
unfolding new get
new-IsValid default_qos capacity = record {
  entries_distinct = tt;
  inflight_distinct = tt;
  entries_tagged = λ k x h. cc;
  inflight_tagged = λ k x h. cc;
  entries_below = λ k x h. cc;
  inflight_below = λ k x h. cc;
  pending_nodup = tt;
  pending_below = λ k h. cc;
  listed = λ k x h. cc;
  apart = λ k x h. cc;
  unlisted = λ k x h. cc;
}

module _ (capacity bound : ℕ) (inflight : Entries) where
  abbrev pub evicted : List ℕ → Entries → List ℕ × Entries
  evicted pending entries = evict capacity (length inflight) pending entries

  pub evict-IsStore :
      (pending : List ℕ) (entries : Entries)
      → IsStore bound pending entries inflight
      → IsStore bound (evicted pending entries).0 (evicted pending entries).1 inflight
  unfolding evict
  evict-IsStore [] entries s = s
  evict-IsStore (tag ∷ tags) entries s =
      elim (Bool-cases (leb capacity (length entries + length inflight))) [
        | inl full ↦ rw full (evict-IsStore tags (remove tag entries) (IsStore-pop s))
        | inr room ↦ rw room s
      ]

  no_pending : (entries : Entries) → IsStore bound [] entries inflight → length entries ≡ 0
  unfolding get
  no_pending [] s = refl
  no_pending ((k, x) ∷ m) s = absurd (ground (arith, s.listed k x))

  -- The loop makes room, or nothing is left to drop.
  evict_room :
      (pending : List ℕ) (entries : Entries)
      → IsStore bound pending entries inflight
      → (length (evicted pending entries).1 + length inflight < capacity)
        ⊎ (length (evicted pending entries).1 ≡ 0)
  unfolding evict
  evict_room [] entries s = inr (no_pending entries s)
  evict_room (tag ∷ tags) entries s =
      elim (Bool-cases (leb capacity (length entries + length inflight))) [
        | inl full ↦ rw full (evict_room tags (remove tag entries) (IsStore-pop s))
        | inr room ↦ rw room (inl (ground arith))
      ]

module _ (payload : Bytes) (qos : QosLevel) (wal_id ttl : Option ℕ) (now : ℕ) (q : SubscriberQueue)
    (v : IsValid q) where
  abbrev kept : List ℕ × Entries
  kept = evict q.capacity (length q.inner.inflight) q.inner.pending q.inner.pending_entries

  kept-IsStore : IsStore q.inner.next_tag kept.0 kept.1 q.inner.inflight
  kept-IsStore =
      evict-IsStore q.capacity q.inner.next_tag q.inner.inflight q.inner.pending
        q.inner.pending_entries v

  -- `enqueue` keeps the invariant while the next tag stays below 2 ^ 64.
  pub enqueue-IsValid :
      q.inner.next_tag + 1 < 2 ^ 64 → IsValid (enqueue payload qos wal_id ttl now q)
  unfolding enqueue new_entry
  enqueue-IsValid h =
      let e : (q.inner.next_tag + 1) % 2 ^ 64 ≡ q.inner.next_tag + 1 = omega arith in
      rw e (IsStore-enqueue (new_entry q payload qos wal_id ttl now) refl kept-IsStore)

  -- In a valid queue, `enqueue` stores no more than the capacity, or one message next to those in flight when they
  -- fill the capacity alone.
  pub enqueue_bound :
      (stored (enqueue payload qos wal_id ttl now q) ≤ q.capacity)
      ⊎ (stored (enqueue payload qos wal_id ttl now q) ≤ length q.inner.inflight + 1)
  unfolding enqueue new_entry insert
  enqueue_bound = ground (
    arith,
    length-remove-le q.inner.next_tag kept.1,
    evict_room q.capacity q.inner.next_tag q.inner.inflight q.inner.pending q.inner.pending_entries
        v,
  )

-- What `dequeue` pops: nothing, or the entry of the first tag that is not stale.
pub data Popped (bound : ℕ) (entries inflight : Entries) (r : List ℕ × Entries × Option QueueEntry)
    : Type 0 where
  nothing : r.2 ≡ none → IsStore bound r.0 r.1 inflight → Popped bound entries inflight r
  found :
      (x : QueueEntry)
      → r.2 ≡ some x
      → get x.tag entries ≡ some x
      → r.1 ≡ remove x.tag entries
      → IsStore bound (x.tag ∷ r.0) entries inflight
      → Popped bound entries inflight r

pub IsStore-skip :
    {bound : ℕ} (k : ℕ) {pending : List ℕ} (entries : Entries) {inflight : Entries}
    → get k entries ≡ none
    → IsStore bound (k ∷ pending) entries inflight
    → IsStore bound pending entries inflight
IsStore-skip k entries h s = rw (remove-absent k entries h) at (IsStore-pop s)

pub pop_pending_stale :
    (tag : ℕ) (tags : List ℕ) (entries : Entries)
    → get tag entries ≡ none
    → pop_pending (tag ∷ tags) entries ≡ pop_pending tags entries
unfolding pop_pending
pop_pending_stale tag tags entries h = rw (h, pop_pending) refl

pub pop_pending_live :
    (tag : ℕ) (tags : List ℕ) (entries : Entries) {x : QueueEntry}
    → get tag entries ≡ some x
    → pop_pending (tag ∷ tags) entries ≡ (tags, remove tag entries, some x)
unfolding pop_pending
pop_pending_live tag tags entries h = rw (h, pop_pending) refl

pub pop_pending-Popped :
    (bound : ℕ) (pending : List ℕ) (entries inflight : Entries)
    → IsStore bound pending entries inflight
    → Popped bound entries inflight (pop_pending pending entries)
pop_pending-Popped bound [] entries inflight s = unfold pop_pending in nothing refl s
pop_pending-Popped bound (tag ∷ tags) entries inflight s = elim (Option-cases (get tag entries)) [
  | inl stale ↦
      rw (pop_pending_stale tag tags entries stale)
        (pop_pending-Popped bound tags entries inflight (IsStore-skip tag entries stale s))
  | inr (x, live) ↦
      let e : x.tag ≡ tag = s.entries_tagged tag x live in
      rw (pop_pending_live tag tags entries live) (
        found x refl (subst (λ (t : ℕ). get t entries ≡ some x) (sym e) live)
          (ap (λ (t : ℕ). remove t entries) (sym e))
          (subst (λ (t : ℕ). IsStore bound (t ∷ tags) entries inflight) (sym e) s))
]

finish-IsStore :
    (base_delay now : ℕ) (qos : QosLevel) (x : QueueEntry) (i : Inner) (entries : Entries)
    → get x.tag entries ≡ some x
    → i.pending_entries ≡ remove x.tag entries
    → IsStore i.next_tag (x.tag ∷ i.pending) entries i.inflight
    → let j : Inner = (deliver base_delay now qos x i).0 in
      IsStore j.next_tag j.pending j.pending_entries j.inflight
unfolding deliver delivered_entry
finish-IsStore base_delay now at_most_once x i entries h e s = rw e (IsStore-pop s)
finish-IsStore base_delay now at_least_once x i entries h e s =
    rw e (IsStore-deliver x (delivered_entry base_delay now x) h refl s)

-- `dequeue` keeps the invariant, whatever the delay and the time.
pub dequeue-IsValid :
    (base_delay now : ℕ) (q : SubscriberQueue) → IsValid q → IsValid (dequeue base_delay now q).0
unfolding dequeue finish_dequeue
dequeue-IsValid base_delay now q v =
    let popped = pop_pending q.inner.pending q.inner.pending_entries in
    elim (pop_pending-Popped q.inner.next_tag q.inner.pending q.inner.pending_entries
      q.inner.inflight v) [
        | nothing e s ↦ rw e s
        | found x e h r s ↦ rw e (
            finish-IsStore base_delay now x.qos x
              (record (q.inner) { pending = popped.0; pending_entries = popped.1 })
              q.inner.pending_entries h r s)
      ]

pub ack-IsValid : (tag : ℕ) (q : SubscriberQueue) → IsValid q → IsValid (ack tag q).0
unfolding ack
ack-IsValid tag q v = elim (Option-cases (get tag q.inner.inflight)) [
  | inl absent ↦ rw (absent, ack) v
  | inr (x, there) ↦ rw (there, ack) (IsStore-drop_inflight tag v)
]

pub cancel_push_inflight-IsValid :
    (tag : ℕ) (q : SubscriberQueue) → IsValid q → IsValid (cancel_push_inflight tag q)
unfolding cancel_push_inflight
cancel_push_inflight-IsValid tag q v = IsStore-drop_inflight tag v
