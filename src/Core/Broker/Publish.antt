-- ===== src/Core/Broker/Publish.antt =====
-- core/src/lib.rs: `publish_inner` of `Broker`. `hash` is the `AHasher` of
-- the `ahash` crate on the bytes of a partition key, a function of the key since its seed is fixed. The
-- latency histogram is left out. The time is read once for a publish.
pub mod Targets
pub mod Fanout
pub mod Wildcards
pub mod Keeps
pub mod Reached
use blipmq.Prelude.{
  ℕ, zero, suc, ◌+◌, ◌%◌, ◌^◌, Bool, true, false, ltb, ◌==◌, List, [], ◌∷◌, ◌++◌, length, Option,
  none, some, if◌then◌else◌, not, Outcome, ok, err, ◌>>=◌,
}
use blipmq.Wire.Buf.{Bytes, Buf}
use blipmq.Core.LogError.{LogError, corruption, text, QosLevel}
use blipmq.Core.WalEntry
use blipmq.Core.WalEntry.{message}
use blipmq.Core.Subject.{SubjectPattern, matches}
use blipmq.Core.TagMap.{get, insert, modify}
use blipmq.Core.NameMap.{find, alter}
use blipmq.Core.Config.{BrokerConfig, SlowConsumerPolicy, drop_newest, drop_subscription}
use blipmq.Core.Subscriber.{Subscriber, Buffers, Publication, Fate, delivered, dropped, deliver_to}
use blipmq.Core.Broker.{ConsumerGroup, Topic, SubscriptionRef, Broker, add}
use blipmq.Core.Broker.Unsubscribe.{unsubscribe_one}

-- `members[idx]`
pub member_at : ℕ → List ℕ → Option ℕ
member_at i [] = none
member_at zero (x ∷ xs) = some x
member_at (suc i) (x ∷ xs) = member_at i xs

-- A key that is not empty picks the member by its hash; otherwise the group's counter does, and is
-- counted up. The group is not empty.
pick_index : (Bytes → ℕ) → Option Bytes → ConsumerGroup → ℕ × ConsumerGroup
pick_index hash (some (k ∷ ks)) g = (hash (k ∷ ks) % length g.members, g)
pick_index hash _ g =
    (g.next_idx % length g.members, record g { next_idx = (g.next_idx + 1) % 2 ^ 64 })

some_id : Option ℕ → List ℕ
some_id none = []
some_id (some id) = id ∷ []

-- One group of the topic: the picked member, if the group has one.
pub pick : (Bytes → ℕ) → Option Bytes → ConsumerGroup → List ℕ × ConsumerGroup
unfolding pick_index some_id
pick hash key g =
    if length g.members == 0
    then ([], g)
    else (let (i, g') = pick_index hash key g in (some_id (member_at i g.members), g'))

pub pick_all :
    (Bytes → ℕ)
    → Option Bytes
    → List (Bytes × ConsumerGroup)
    → List ℕ × List (Bytes × ConsumerGroup)
pick_all hash key [] = ([], [])
pick_all hash key ((name, g) ∷ gs) =
    let (ids, g') = pick hash key g in
    let (rest, gs') = pick_all hash key gs in (ids ++ rest, (name, g') ∷ gs')

-- The snapshot of the topic's subscribers: all of its own, and one of each group.
pub topic_targets : (Bytes → ℕ) → Option Bytes → Topic → List ℕ × Topic
unfolding pick_all
topic_targets hash key t =
    let (picked, groups) = pick_all hash key t.consumer_groups in
    (
      t.subscribers ++ picked,
      record t { consumer_groups = groups; published_total = add t.published_total 1 },
    )

-- `matches` is never `none`, which stands for an index out of range.
pub does_match : SubjectPattern → Bytes → Bool
does_match p subject = elim (matches p subject) [ none ↦ false | some yes_or_no ↦ yes_or_no ]

-- The subscriptions whose pattern matches the subject and that are still there.
pub wildcard_targets : Bytes → List (SubjectPattern × ℕ) → List (ℕ × SubscriptionRef) → List ℕ
unfolding does_match
wildcard_targets subject [] subscriptions = []
wildcard_targets subject ((p, id) ∷ ws) subscriptions =
    let rest = wildcard_targets subject ws subscriptions in
    if does_match p subject
    then elim (get id subscriptions) [ none ↦ rest | some r ↦ id ∷ rest ]
    else rest

-- The loop over the snapshot changes the subscribers, and counts.
pub record Fan : Type 0 where
  pub store : List (ℕ × Subscriber)
  pub buffers : Buffers
  pub delivered_count : ℕ
  pub push_dropped_total : ℕ
  pub subs_to_drop : List ℕ

policy_drop : SlowConsumerPolicy → ℕ → List ℕ → List ℕ
policy_drop drop_newest id ids = ids
policy_drop drop_subscription id ids = ids ++ (id ∷ [])

-- `saturating_add(1)` on `u64`.
pub count_delivery : ℕ → ℕ
count_delivery n = if ltb (n + 1) (2 ^ 64) then n + 1 else n

account : BrokerConfig → ℕ → Fate → Fan → Fan
unfolding policy_drop count_delivery
account c id delivered f = record f { delivered_count = count_delivery f.delivered_count }
account c id dropped f = record f {
  push_dropped_total = add f.push_dropped_total 1;
  subs_to_drop = policy_drop c.slow_consumer_policy id f.subs_to_drop;
}

fan_one : BrokerConfig → Publication → ℕ → Subscriber → Fan → Fan
unfolding account
fan_one c m id s f =
    let (s', buffers', fate) = deliver_to c.slow_consumer_buffer_bytes id m f.buffers s in
    account c id fate (record f { store = modify id (λ _. s') f.store; buffers = buffers' })

pub fan_out : BrokerConfig → Publication → List ℕ → Fan → Fan
unfolding fan_one
fan_out c m [] f = f
fan_out c m (id ∷ ids) f =
    fan_out c m ids (elim (get id f.store) [ none ↦ f | some s ↦ fan_one c m id s f ])

unsubscribe_all : List ℕ → Broker → Broker
unsubscribe_all [] b = b
unsubscribe_all (id ∷ ids) b = unsubscribe_all ids (unsubscribe_one id b).0

max_id : Option ℕ → ℕ → ℕ
max_id none observed = observed
max_id (some id) observed = if ltb observed id then id else observed

-- `ttl_override.or(Some(message_ttl))`
pub or_default : ℕ → Option ℕ → Option ℕ
or_default ttl none = some ttl
or_default ttl (some override) = some override

-- The topic record, and what the snapshot takes from it.
pub from_topic : (Bytes → ℕ) → Option Bytes → Option Topic → List ℕ
from_topic hash key none = []
from_topic hash key (some t) = (topic_targets hash key t).0

-- The ids that a publish to `topic` reaches, by the handle or else by the name.
pub targets : (Bytes → ℕ) → Bytes → Bytes → Option Bytes → Broker → List ℕ
targets hash topic resolved key b =
    from_topic hash key (find resolved b.topics)
    ++ (if ltb 0 b.wildcard_subs_len
        then wildcard_targets topic b.wildcard_subs b.subscriptions
        else [])

pub by_handle : Bytes → Option Bytes → Bytes
by_handle topic none = topic
by_handle topic (some name) = name

-- The counters after the loop.
settle : Bytes → Fan → Broker → Broker
settle resolved f b =
    let b = record b {
      store = f.store;
      buffers = f.buffers;
      push_dropped_total = f.push_dropped_total;
    } in
    if ltb 0 f.delivered_count
    then record b {
      topics =
          alter resolved
            (λ t. record t { delivered_total = add t.delivered_total f.delivered_count }) b.topics;
      messages_delivered_total = add b.messages_delivered_total f.delivered_count;
    }
    else b

pub publish_inner :
    (Bytes → ℕ)
    → ℕ
    → Bytes
    → Option Bytes
    → Bytes
    → QosLevel
    → Option ℕ
    → Option ℕ
    → Option Bytes
    → Broker
    → Broker
unfolding by_handle
publish_inner hash now topic pre_resolved payload qos wal_id ttl_override partition_key b =
    if b.shutting_down
    then b
    else (let resolved = by_handle topic pre_resolved in
        let m : Publication = record {
          topic = topic;
          payload = payload;
          qos = qos;
          wal_id = wal_id;
          ttl = or_default b.config.message_ttl ttl_override;
          now = now;
        } in
        let f = fan_out b.config m (targets hash topic resolved partition_key b) (record {
          store = b.store;
          buffers = b.buffers;
          delivered_count = 0;
          push_dropped_total = b.push_dropped_total;
          subs_to_drop = [];
        }) in
        let b = record b {
          publish_count = add b.publish_count 1;
          max_wal_id_observed = max_id wal_id b.max_wal_id_observed;
          messages_published_total = add b.messages_published_total 1;
          topics = alter resolved (λ t. (topic_targets hash partition_key t).1) b.topics;
        } in
        unsubscribe_all f.subs_to_drop (settle resolved f b))
