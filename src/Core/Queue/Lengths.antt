-- ===== src/Core/Queue/Lengths.antt =====
-- The read-only methods of the queue of core/src/lib.rs.
use blipmq.Prelude.{ℕ, ◌≡◌, refl, Option, none, some, List, [], ◌∷◌, Option-cases, inl, inr}
use blipmq.Wire.Buf.{Bytes}
use blipmq.Core.TagMap.{get}
use blipmq.Core.Queue.{QueueEntry, Entries, SubscriberQueue, find_payload, peek}
use blipmq.Core.Queue.Fifo.{view, messages}

abbrev pub first_payload : List QueueEntry → Option Bytes
first_payload [] = none
first_payload (x ∷ xs) = some x.payload

find_payload-view :
    (tags : List ℕ) (entries : Entries)
    → find_payload tags entries ≡ first_payload (view tags entries)
unfolding find_payload view
find_payload-view [] entries = refl
find_payload-view (tag ∷ tags) entries = elim (Option-cases (get tag entries)) [
  | inl stale ↦ rw (stale, find_payload) (find_payload-view tags entries)
  | inr (x, live) ↦ rw (live, find_payload) refl
]

-- `peek` answers the payload of the oldest waiting message, or nothing when none waits.
pub peek-messages : (q : SubscriberQueue) → peek q ≡ first_payload (messages q)
unfolding peek
peek-messages q = find_payload-view q.inner.pending q.inner.pending_entries
