-- ===== src/Core/Broker/Unsubscribe.antt =====
-- core/src/lib.rs: `unsubscribe_one` and `unsubscribe_connection` of `Broker`.
pub mod Registry
pub mod Keeps
use blipmq.Prelude.{
  ℕ, ◌%◌, ◌^◌, Bool, true, false, ◌==◌, List, [], ◌∷◌, length, Option, none, some, if◌then◌else◌,
}
use blipmq.Wire.Buf.{Bytes}
use blipmq.Core.Subject.{SubjectPattern}
use blipmq.Core.TagMap.{get, remove}
use blipmq.Core.NameMap.{alter}
use blipmq.Core.Broker.{ConsumerGroup, Topic, SubscriptionRef, Broker}

-- `retain(|s| *s != id)`, and `remove(&id)` of a set of ids.
without : ℕ → List ℕ → List ℕ
without id [] = []
without id (x ∷ xs) = if x == id then without id xs else x ∷ without id xs

leave_group : ℕ → ConsumerGroup → ConsumerGroup
leave_group id g = record g { members = without id g.members }

leave_topic : Option Bytes → ℕ → Topic → Topic
leave_topic none id t = record t { subscribers = without id t.subscribers }
leave_topic (some name) id t = record t {
  consumer_groups = alter name (leave_group id) t.consumer_groups;
}

leave : ℕ → SubscriptionRef → List (Bytes × Topic) → List (Bytes × Topic)
unfolding leave_topic
leave id r topics = alter r.topic (leave_topic r.group id) topics

-- The ids of each connection, without those that have none left.
forget : ℕ → List (ℕ × List ℕ) → List (ℕ × List ℕ)
forget id [] = []
forget id ((c, ids) ∷ m) =
    let ids = without id ids in if length ids == 0 then forget id m else (c, ids) ∷ forget id m

unwatch : ℕ → List (SubjectPattern × ℕ) → List (SubjectPattern × ℕ)
unwatch id [] = []
unwatch id ((p, x) ∷ ws) = if x == id then unwatch id ws else (p, x) ∷ unwatch id ws

pub unsubscribe_one : ℕ → Broker → Broker × Bool
unfolding leave
unsubscribe_one id b = elim (get id b.subscriptions) [
  | none ↦ (b, false)
  | some r ↦
      let wcs = unwatch id b.wildcard_subs in
      (
        record b {
          subscriptions = remove id b.subscriptions;
          topics = leave id r b.topics;
          connection_subs = forget id b.connection_subs;
          wildcard_subs = wcs;
          wildcard_subs_len = length wcs % 2 ^ 64;
        },
        true,
      )
]

-- The first loop: the entries of the ids, taken out of the map.
take_refs :
    List ℕ → List (ℕ × SubscriptionRef) → List (ℕ × SubscriptionRef) × List (ℕ × SubscriptionRef)
take_refs [] subscriptions = ([], subscriptions)
take_refs (id ∷ ids) subscriptions =
    let (removed, rest) = take_refs ids (remove id subscriptions) in
    (elim (get id subscriptions) [ none ↦ removed | some r ↦ (id, r) ∷ removed ], rest)

leave_all : List (ℕ × SubscriptionRef) → List (Bytes × Topic) → List (Bytes × Topic)
unfolding leave
leave_all [] topics = topics
leave_all ((id, r) ∷ rs) topics = leave_all rs (leave id r topics)

unwatch_all : List (ℕ × SubscriptionRef) → List (SubjectPattern × ℕ) → List (SubjectPattern × ℕ)
unwatch_all [] ws = ws
unwatch_all ((id, r) ∷ rs) ws = unwatch_all rs (unwatch id ws)

-- The ids of the connection are dropped first; the rest is done only if it had one.
drop_ids : List ℕ → Broker → Broker
drop_ids [] b = b
drop_ids (i ∷ is) b =
    let (removed, rest) = take_refs (i ∷ is) b.subscriptions in
    let b = record b { subscriptions = rest; topics = leave_all removed b.topics } in
    if length removed == 0
    then b
    else (let wcs = unwatch_all removed b.wildcard_subs in
        record b { wildcard_subs = wcs; wildcard_subs_len = length wcs % 2 ^ 64 })

ids_of : Option (List ℕ) → List ℕ
ids_of none = []
ids_of (some ids) = ids

pub unsubscribe_connection : ℕ → Broker → Broker
unfolding ids_of
unsubscribe_connection conn_id b =
    drop_ids (ids_of (get conn_id b.connection_subs))
      (record b { connection_subs = remove conn_id b.connection_subs })
