-- ===== src/Core/Broker/Ack/Cursors.antt =====
-- The cursors of the consumers after `ack` of core/src/lib.rs, and the least of them.
use blipmq.Prelude.{
  ℕ, ◌≡◌, ◌≤◌, ◌⊎◌, inl, inr, refl, arith, true, false, ltb, Option-cases, List, [], ◌∷◌, Option,
  none, some, if◌then◌else◌, All,
}
use blipmq.Wire.Buf.{Bytes, Buf}
use blipmq.Core.Subject.Split.{bytes_eq_iff}
use blipmq.Core.Checkpoint.{Cursor, same_key}
use blipmq.Core.Broker.{SubscriptionRef, Broker}
use blipmq.Core.Queue
use blipmq.Core.Queue.{SubscriberQueue}
use blipmq.Core.Subscriber.{Subscriber}
use blipmq.Core.TagMap.{get, get-modify}
use blipmq.Core.Broker.Ack.{
  cursor_of, raise_cursor, min_id, least, current_snapshot, lookup_subscription, ack, acked,
  cursor_id, journal, with_queue,
}

abbrev key : Bytes → Bytes → Cursor
key client_id topic = record { client_id = client_id; topic = topic; wal_id = 0 }

-- The greater of an id and a cursor, if there is one.
abbrev pub raised : ℕ → Option ℕ → ℕ
raised wal_id none = wal_id
raised wal_id (some old) = if ltb old wal_id then wal_id else old

cursor_of-raise_cursor :
    (client_id topic : Bytes) (c : Cursor) (cs : List Cursor)
    → cursor_of client_id topic (raise_cursor c cs) ≡ (
        if same_key (key client_id topic) c
        then some (raised c.wal_id (cursor_of client_id topic cs))
        else cursor_of client_id topic cs)
unfolding cursor_of raise_cursor same_key
cursor_of-raise_cursor client_id topic c [] = ground arith
cursor_of-raise_cursor client_id topic c (d ∷ ds) = ground (
  arith,
  bytes_eq_iff client_id c.client_id,
  bytes_eq_iff topic c.topic,
  bytes_eq_iff c.client_id d.client_id,
  bytes_eq_iff c.topic d.topic,
  bytes_eq_iff client_id d.client_id,
  bytes_eq_iff topic d.topic,
  cursor_of-raise_cursor client_id topic c ds,
)

-- The cursor of a consumer once one consumer acknowledged a message.
abbrev pub moved : Cursor → Option ℕ → Option ℕ → Bytes → Bytes → Option ℕ
moved c none old client_id topic = old
moved c (some wal_id) old client_id topic =
    if same_key (record { client_id = client_id; topic = topic; wal_id = 0 }) c
    then some (raised wal_id old)
    else old

lookup_subscription-store :
    (id : ℕ) (b : Broker) (r : SubscriptionRef) (s : Subscriber)
    → lookup_subscription id b ≡ some (r, s)
    → get id b.store ≡ some s
unfolding lookup_subscription
lookup_subscription-store id b r s h = ground arith

pub acked-none :
    ⦃w : Buf⦄ (id : ℕ) (r : SubscriptionRef) (s : Subscriber) (b : Broker) (q : SubscriberQueue)
    (o : Option (Option ℕ))
    → o ≡ none
    → acked id r s b (q, o) ≡ (b, false, none)
unfolding acked
acked-none id r s b q o h = rw h refl

acked-some :
    ⦃w : Buf⦄ (id : ℕ) (r : SubscriptionRef) (s : Subscriber) (b : Broker) (q : SubscriberQueue)
    (o : Option (Option ℕ)) (wal_id : Option ℕ)
    → o ≡ some wal_id
    → acked id r s b (q, o) ≡ journal (cursor_id r s) r.topic wal_id (with_queue id q b)
unfolding acked
acked-some id r s b q o wal_id h = rw h refl

journal-moves :
    ⦃w : Buf⦄ (cursor at : Bytes) (wal_id : Option ℕ) (b : Broker) (client_id topic : Bytes)
    → ((journal cursor at wal_id b).1 ≡ true)
      × ((journal cursor at wal_id b).0.store ≡ b.store)
      × (cursor_of client_id topic (journal cursor at wal_id b).0.ack_cursors
          ≡ moved
              (record { client_id = cursor; topic = at; wal_id = 0 })
              wal_id
              (cursor_of client_id topic b.ack_cursors)
              client_id
              topic)
unfolding journal same_key
journal-moves cursor at none b client_id topic = (refl, refl, refl)
journal-moves cursor at (some wal_id) b client_id topic =
    (refl, refl, cursor_of-raise_cursor client_id topic _ b.ack_cursors)

pub ack-journal :
    ⦃w : Buf⦄ (id tag : ℕ) (b : Broker) (r : SubscriptionRef) (s : Subscriber) (wal_id : Option ℕ)
    → lookup_subscription id b ≡ some (r, s)
    → (Queue.ack tag s.queue).1 ≡ some wal_id
    → ack id tag b
      ≡ journal (cursor_id r s) r.topic wal_id (with_queue id (Queue.ack tag s.queue).0 b)
unfolding ack
ack-journal id tag b r s wal_id e h = rw (e, ack) (acked-some id r s b _ _ wal_id h)

-- The subscription and the tag are known: what changes.
abbrev pub Moved : ⦃w : Buf⦄ → ℕ → ℕ → Broker → Bytes → Bytes → Type 0
Moved id tag b client_id topic =
    (r : SubscriptionRef) × (s : Subscriber) × (wal_id : Option ℕ) × (lookup_subscription id b
      ≡ some (r, s))
    × ((Queue.ack tag s.queue).1 ≡ some wal_id)
    × ((ack id tag b).1 ≡ true)
    × (get id (ack id tag b).0.store ≡ some (record s { queue = (Queue.ack tag s.queue).0 }))
    × (cursor_of client_id topic (ack id tag b).0.ack_cursors
        ≡ moved (record { client_id = cursor_id r s; topic = r.topic; wal_id = 0 }) wal_id
            (cursor_of client_id topic b.ack_cursors) client_id topic)

-- The subscription, or the tag in its queue, is not known.
abbrev pub Unknown : ℕ → ℕ → Broker → Type 0
Unknown id tag b =
    (lookup_subscription id b ≡ none)
    ⊎ ((r : SubscriptionRef) × (s : Subscriber) × (lookup_subscription id b ≡ some (r, s))
        × ((Queue.ack tag s.queue).1 ≡ none))

-- A known tag is answered with true: its message leaves the queue, and the cursor of the consumer,
-- which is its group if it is in one and else its client, on its topic, becomes the greater of what it
-- was and the message's id of the log; every other cursor stays. Without a log id no cursor moves. An
-- unknown subscription or tag is answered with false, and nothing is changed or journaled.
pub ack-moves :
    ⦃w : Buf⦄ (id tag : ℕ) (b : Broker) (client_id topic : Bytes)
    → Moved id tag b client_id topic ⊎ ((ack id tag b ≡ (b, false, none)) × Unknown id tag b)
unfolding ack
ack-moves id tag b client_id topic = elim (Option-cases (lookup_subscription id b)) [
  | inl absent ↦ inr (rw (absent, ack) refl, inl absent)
  | inr ((r, s), e) ↦ elim (Option-cases (Queue.ack tag s.queue).1) [
    | inl unknown ↦ inr (rw (e, ack) (acked-none id r s b _ _ unknown), inr (r, s, e, unknown))
    | inr (wal_id, known) ↦
        let q : SubscriberQueue = (Queue.ack tag s.queue).0 in
        let j = journal-moves (cursor_id r s) r.topic wal_id (with_queue id q b) client_id topic in
        let a = ack-journal id tag b r s wal_id e known in
        inl (
          r,
          s,
          wal_id,
          e,
          known,
          rw a j.0,
          rw (a, j.1)
              (ground (
                arith,
                get-modify id id (λ (s : Subscriber). record s { queue = q }) b.store,
                lookup_subscription-store id b r s e,
              )),
          rw a j.2,
        )
  ]
]

min_id-le :
    (low : ℕ) (cs : List Cursor)
    → (min_id low cs ≤ low) × All (λ (c : Cursor). min_id low cs ≤ c.wal_id) cs
unfolding min_id
min_id-le low [] = (omega arith, tt)
min_id-le low (c ∷ cs) = ground (arith, min_id-le (if ltb c.wal_id low then c.wal_id else low) cs)

abbrev pub Holds : ℕ → List Cursor → Type 0
Holds n [] = ⊥
Holds n (c ∷ cs) = (n ≡ c.wal_id) ⊎ Holds n cs

min_id-Holds : (low : ℕ) (cs : List Cursor) → (min_id low cs ≡ low) ⊎ Holds (min_id low cs) cs
unfolding min_id
min_id-Holds low [] = inl refl
min_id-Holds low (c ∷ cs) =
    ground (arith, min_id-Holds (if ltb c.wal_id low then c.wal_id else low) cs)

least-bounds :
    (cs : List Cursor)
    → All (λ (c : Cursor). least cs ≤ c.wal_id) cs
      × (((cs ≡ []) × (least cs ≡ 0)) ⊎ Holds (least cs) cs)
unfolding least
least-bounds [] = (tt, inl (refl, refl))
least-bounds (c ∷ cs) = (min_id-le c.wal_id cs, inr (min_id-Holds c.wal_id cs))

-- The id of a snapshot is at most every cursor and is one of them, or is 0 when there is none; the
-- snapshot holds all cursors.
pub current_snapshot-least :
    (b : Broker)
    → let s = current_snapshot b in
      (s.cursors ≡ b.ack_cursors)
      × All (λ (c : Cursor). s.snapshot_id ≤ c.wal_id) s.cursors
      × (((s.cursors ≡ []) × (s.snapshot_id ≡ 0)) ⊎ Holds s.snapshot_id s.cursors)
unfolding current_snapshot
current_snapshot-least b = (refl, (least-bounds b.ack_cursors).0, (least-bounds b.ack_cursors).1)

-- What bounds all cursors bounds one that is found.
pub cursor_of-All :
    (low : ℕ) (client_id topic : Bytes) (cs : List Cursor) (n : ℕ)
    → All (λ (c : Cursor). low ≤ c.wal_id) cs
    → cursor_of client_id topic cs ≡ some n
    → low ≤ n
unfolding cursor_of
cursor_of-All low client_id topic [] n h e = absurd (ground arith)
cursor_of-All low client_id topic (c ∷ cs) n h e =
    ground (arith, e, cursor_of-All low client_id topic cs n h.1)
