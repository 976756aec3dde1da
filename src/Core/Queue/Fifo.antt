-- ===== src/Core/Queue/Fifo.antt =====
-- The queue of core/src/lib.rs as a list of messages, oldest first: `enqueue` appends to it,
-- dropping from the front for room, and `dequeue` takes the front.
use blipmq.Prelude.{
  ℕ, suc, ◌+◌, ◌≤◌, ◌<◌, ◌≡◌, ◌⊎◌, refl, ap, sym, ◌∙◌, arith, Bool-cases, true, false, leb, Option,
  none, some, List, [], ◌∷◌, ◌++◌, length, drop, Option-cases, inl, inr,
}
use blipmq.Wire.Buf.{Bytes}
use blipmq.Core.LogError.{QosLevel, at_most_once, at_least_once}
use blipmq.Core.TagMap.{get, insert, remove, get-remove, get-insert, remove-absent, length-remove}
use blipmq.Core.Queue.{
  QueueEntry, Entries, Inner, SubscriberQueue, evict, new_entry, enqueue, pop_pending,
  delivered_entry, deliver, finish_dequeue, dequeue,
}
use blipmq.Core.Queue.Valid.{
  IsValid, stored, pop_pending_stale, pop_pending_live, evict-IsStore, IsStore-skip,
}
use blipmq.Core.Queue.Valid.Store.{IsStore, IsStore-pop, contains}

abbrev add_found : Option QueueEntry → List QueueEntry → List QueueEntry
add_found none xs = xs
add_found (some x) xs = x ∷ xs

-- The entries of the tags that are not stale.
unfoldable pub view : List ℕ → Entries → List QueueEntry
view [] entries = []
view (tag ∷ tags) entries = add_found (get tag entries) (view tags entries)

abbrev pub messages : SubscriberQueue → List QueueEntry
messages q = view q.inner.pending q.inner.pending_entries

view-append : (xs ys : List ℕ) (m : Entries) → view (xs ++ ys) m ≡ view xs m ++ view ys m
unfolding view
view-append [] ys m = refl
view-append (x ∷ xs) ys m = ground (arith, view-append xs ys m)

view-remove :
    (k : ℕ) (ks : List ℕ) (m : Entries) → contains k ks ≡ false → view ks (remove k m) ≡ view ks m
unfolding view
view-remove k [] m h = refl
view-remove k (j ∷ ks) m h = ground (arith, get-remove k j m, view-remove k ks m)

view-insert :
    (k : ℕ) (x : QueueEntry) (ks : List ℕ) (m : Entries)
    → contains k ks ≡ false
    → view ks (insert k x m) ≡ view ks m
unfolding view
view-insert k x [] m h = refl
view-insert k x (j ∷ ks) m h = ground (arith, get-insert k j x m, view-insert k x ks m)

view-snoc :
    (k : ℕ) (x : QueueEntry) (ks : List ℕ) (m : Entries)
    → contains k ks ≡ false
    → view (ks ++ (k ∷ [])) (insert k x m) ≡ view ks m ++ (x ∷ [])
view-snoc k x ks m h =
    rw (view-append ks (k ∷ []) (insert k x m), view-insert k x ks m h)
      (unfold view in ap (λ (o : Option QueueEntry). view ks m ++ add_found o []) last)
  where
    last : get k (insert k x m) ≡ some x
    last = ground (arith, get-insert k k x m)

evict_full :
    (c n tag : ℕ) (tags : List ℕ) (m : Entries)
    → leb c (length m + n) ≡ true
    → evict c n (tag ∷ tags) m ≡ evict c n tags (remove tag m)
unfolding evict
evict_full c n tag tags m h = rw h refl

evict_fits :
    (c n tag : ℕ) (tags : List ℕ) (m : Entries)
    → leb c (length m + n) ≡ false
    → evict c n (tag ∷ tags) m ≡ (tag ∷ tags, m)
unfolding evict
evict_fits c n tag tags m h = rw h refl

abbrev view_of : List ℕ × Entries → List QueueEntry
view_of r = view r.0 r.1

-- The loop for room drops `n` messages from the front, and none that it could keep.
record Drops (c n_inflight : ℕ) (pending : List ℕ) (m : Entries) (n : ℕ) : Type 0 where
  shorter : view_of (evict c n_inflight pending m) ≡ drop n (view pending m)
  needed : (n ≡ 0) ⊎ (c + n ≤ length m + n_inflight + 1)

view_stale :
    (tag : ℕ) (tags : List ℕ) (m : Entries) → get tag m ≡ none → view (tag ∷ tags) m ≡ view tags m
unfolding view
view_stale tag tags m h = ap (λ (o : Option QueueEntry). add_found o (view tags m)) h

Drops-stale :
    (c k n tag : ℕ) (tags : List ℕ) (m : Entries)
    → leb c (length m + k) ≡ true
    → get tag m ≡ none
    → Drops c k tags m n
    → Drops c k (tag ∷ tags) m n
Drops-stale c k n tag tags m full stale d = record {
  shorter =
      ap view_of (evict_full c k tag tags m full ∙ ap (evict c k tags) (remove-absent tag m stale))
      ∙ d.shorter
      ∙ ap (drop n) (sym (view_stale tag tags m stale));
  needed = d.needed;
}

view_live :
    (tag : ℕ) (tags : List ℕ) (m : Entries) {x : QueueEntry}
    → get tag m ≡ some x
    → view (tag ∷ tags) m ≡ x ∷ view tags m
unfolding view
view_live tag tags m h = ap (λ (o : Option QueueEntry). add_found o (view tags m)) h

Drops-live :
    (c k n tag : ℕ) (tags : List ℕ) (m : Entries) (x : QueueEntry)
    → leb c (length m + k) ≡ true
    → get tag m ≡ some x
    → contains tag tags ≡ false
    → suc (length (remove tag m)) ≡ length m
    → Drops c k tags (remove tag m) n
    → Drops c k (tag ∷ tags) m (suc n)
Drops-live c k n tag tags m x full live nodup len d = record {
  shorter =
      ap view_of (evict_full c k tag tags m full)
      ∙ d.shorter
      ∙ ap (drop n) (view-remove tag tags m nodup)
      ∙ ap (drop (suc n)) (sym (view_live tag tags m live));
  needed = inr (ground (arith, d.needed));
}

evict-Drops :
    (capacity bound : ℕ) (pending : List ℕ) (entries inflight : Entries)
    → IsStore bound pending entries inflight
    → (n : ℕ) × Drops capacity (length inflight) pending entries n
evict-Drops c bound [] m inflight s =
    (0, record { shorter = unfold evict view in refl; needed = inl refl })
evict-Drops c bound (tag ∷ tags) m inflight s =
    elim (Bool-cases (leb c (length m + length inflight))) [
      | inl full ↦ elim (Option-cases (get tag m)) [
        | inl stale ↦
            let (n, d) = evict-Drops c bound tags m inflight (IsStore-skip tag m stale s) in
            (n, Drops-stale c (length inflight) n tag tags m full stale d)
        | inr (x, live) ↦
            let (n, d) = evict-Drops c bound tags (remove tag m) inflight (IsStore-pop s) in
            (
              suc n,
              Drops-live c (length inflight) n tag tags m x full live s.pending_nodup.0
                  (length-remove tag x m s.entries_distinct live) d,
            )
      ]
      | inr fits ↦ (
        0,
        record {
          shorter = ap view_of (evict_fits c (length inflight) tag tags m fits);
          needed = inl refl;
        },
      )
    ]

unlisted_bound :
    (bound : ℕ) (pending : List ℕ)
    → ((k : ℕ) → contains k pending ≡ true → k < bound)
    → contains bound pending ≡ false
unlisted_bound bound pending below = elim (Bool-cases (contains bound pending)) [
  | inl in_use ↦ absurd (omega (arith, below bound in_use))
  | inr free ↦ free
]

-- In a valid queue, `enqueue` appends the new message behind those that wait, after dropping `n` of the oldest: none
-- while there is room, and never more than it takes to get under the capacity.
pub messages-enqueue :
    (payload : Bytes) (qos : QosLevel) (wal_id ttl : Option ℕ) (now : ℕ) (q : SubscriberQueue)
    → IsValid q
    → (n : ℕ) × (messages (enqueue payload qos wal_id ttl now q)
        ≡ drop n (messages q) ++ (new_entry q payload qos wal_id ttl now ∷ []))
      × ((n ≡ 0) ⊎ (q.capacity + n ≤ stored q + 1))
unfolding enqueue new_entry
messages-enqueue payload qos wal_id ttl now q v =
    let x : QueueEntry = new_entry q payload qos wal_id ttl now in
    let i : Inner = q.inner in
    let r = evict q.capacity (length i.inflight) i.pending i.pending_entries in
    let s = evict-IsStore q.capacity i.next_tag i.inflight i.pending i.pending_entries v in
    let (n, d) = evict-Drops q.capacity i.next_tag i.pending i.pending_entries i.inflight v in
    (
      n,
      view-snoc x.tag x r.0 r.1 (unlisted_bound i.next_tag r.0 s.pending_below)
          ∙ ap (λ (xs : List QueueEntry). xs ++ (x ∷ [])) d.shorter,
      d.needed,
    )

-- What is popped is the front of the view.
data PopsFront (xs : List QueueEntry) (r : List ℕ × Entries × Option QueueEntry) : Type 0 where
  none_left : xs ≡ [] → view r.0 r.1 ≡ [] → r.2 ≡ none → PopsFront xs r
  front : (x : QueueEntry) → xs ≡ x ∷ view r.0 r.1 → r.2 ≡ some x → PopsFront xs r

pop_pending-PopsFront :
    (bound : ℕ) (pending : List ℕ) (entries inflight : Entries)
    → IsStore bound pending entries inflight
    → PopsFront (view pending entries) (pop_pending pending entries)
pop_pending-PopsFront bound [] m inflight s = unfold view pop_pending in none_left refl refl refl
pop_pending-PopsFront bound (tag ∷ tags) m inflight s = elim (Option-cases (get tag m)) [
  | inl stale ↦
      rw (pop_pending_stale tag tags m stale, view_stale tag tags m stale)
        (pop_pending-PopsFront bound tags m inflight (IsStore-skip tag m stale s))
  | inr (x, live) ↦ rw (pop_pending_live tag tags m live) (
      front x
        (view_live tag tags m live
          ∙ ap (λ (xs : List QueueEntry). x ∷ xs) (sym (view-remove tag tags m s.pending_nodup.0)))
        refl)
]

-- What `dequeue` answers for the message `x`: a message of QoS 0 as it is, one of QoS 1 with its
-- new attempt, and its tag to acknowledge.
abbrev pub handed_out : ℕ → ℕ → QosLevel → QueueEntry → QueueEntry × Option ℕ
handed_out base_delay now at_most_once x = (x, none)
handed_out base_delay now at_least_once x = (delivered_entry base_delay now x, some x.tag)

deliver_rest :
    (base_delay now : ℕ) (qos : QosLevel) (x : QueueEntry) (i : Inner)
    → ((deliver base_delay now qos x i).0.pending ≡ i.pending)
      × ((deliver base_delay now qos x i).0.pending_entries ≡ i.pending_entries)
      × ((deliver base_delay now qos x i).1 ≡ some (handed_out base_delay now qos x))
unfolding deliver delivered_entry
deliver_rest base_delay now at_most_once x i = (refl, refl, refl)
deliver_rest base_delay now at_least_once x i = (refl, refl, refl)

-- In a valid queue, `dequeue` takes the oldest message that waits, and returns nothing only if none
-- waits.
pub messages-dequeue :
    (base_delay now : ℕ) (q : SubscriberQueue)
    → IsValid q
    → ((messages q ≡ [])
        × (messages (dequeue base_delay now q).0 ≡ [])
        × ((dequeue base_delay now q).1 ≡ none))
      ⊎ ((x : QueueEntry) × (messages q ≡ x ∷ messages (dequeue base_delay now q).0)
          × ((dequeue base_delay now q).1 ≡ some (handed_out base_delay now x.qos x)))
unfolding dequeue finish_dequeue
messages-dequeue base_delay now q v =
    let i : Inner = q.inner in
    let r = pop_pending i.pending i.pending_entries in
    elim (pop_pending-PopsFront i.next_tag i.pending i.pending_entries i.inflight v) [
      | none_left e f g ↦ inl (e, rw g f, rw g refl)
      | front x e g ↦
          let j : Inner = record i { pending = r.0; pending_entries = r.1 } in
          let (p, m, h) = deliver_rest base_delay now x.qos x j in
          inr (x, rw g (rw (p, m) e), rw g h)
    ]
