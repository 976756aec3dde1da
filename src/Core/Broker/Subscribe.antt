-- ===== src/Core/Broker/Subscribe.antt =====
-- core/src/lib.rs: the `subscribe` methods of `Broker`.
pub mod Keeps
use blipmq.Prelude.{ℕ, ◌%◌, ◌^◌, List, [], ◌∷◌, ◌++◌, length, Option, none, some, if◌then◌else◌}
use blipmq.Wire.Buf.{Bytes}
use blipmq.Core.LogError.{QosLevel}
use blipmq.Core.Subject.{SubjectPattern, is_exact, exact_subject}
use blipmq.Core.TagMap.{get, insert, modify}
use blipmq.Core.NameMap.{or_insert, alter}
use blipmq.Core.Queue
use blipmq.Core.Subscriber.{Subscriber, PushSender, PushSlot}
use blipmq.Core.Broker.{ConsumerGroup, Topic, Broker, new_group, new_topic, add}

-- `topics.get_or_insert(topic)`, and the new id in the topic or in its group.
join_group : Bytes → ℕ → List (Bytes × ConsumerGroup) → List (Bytes × ConsumerGroup)
join_group name id groups =
    alter name (λ g. record g { members = g.members ++ (id ∷ []) })
      (or_insert name new_group groups)

join_topic : Option Bytes → ℕ → Topic → Topic
unfolding join_group
join_topic none id t = record t { subscribers = t.subscribers ++ (id ∷ []) }
join_topic (some name) id t = record t { consumer_groups = join_group name id t.consumer_groups }

-- `conn_map.entry(c).or_default().push(sub_id)`
track : Option ℕ → ℕ → List (ℕ × List ℕ) → List (ℕ × List ℕ)
track none id m = m
track (some c) id m = elim (get c m) [
  | none ↦ insert c (id ∷ []) m
  | some ids ↦ modify c (λ ids. ids ++ (id ∷ [])) m
]

pub subscribe_inner_grouped :
    Bytes
    → Bytes
    → QosLevel
    → Option ℕ
    → Option PushSender
    → Option PushSlot
    → Option Bytes
    → Broker
    → Broker × ℕ
subscribe_inner_grouped client_id topic qos conn_id push_sender push_slot group b =
    let id = b.next_subscription_id in
    let subscriber : Subscriber = record {
      client_id = client_id;
      queue = Queue.new qos b.config.per_subscriber_queue_capacity;
      push_sender = push_sender;
      push_slot = push_slot;
      push_next_tag = 1;
    } in
    (
      record b {
        store = insert id subscriber b.store;
        topics = alter topic (join_topic group id) (or_insert topic (new_topic topic) b.topics);
        next_subscription_id = add id 1;
        subscriptions = insert id (record { topic = topic; group = group }) b.subscriptions;
        connection_subs = track conn_id id b.connection_subs;
      },
      id,
    )

pub subscribe_inner :
    Bytes → Bytes → QosLevel → Option ℕ → Option PushSender → Option PushSlot → Broker → Broker × ℕ
subscribe_inner client_id topic qos conn_id push_sender push_slot b =
    subscribe_inner_grouped client_id topic qos conn_id push_sender push_slot none b

pub subscribe : Bytes → Bytes → QosLevel → Broker → Broker × ℕ
subscribe client_id topic qos b = subscribe_inner client_id topic qos none none none b

pub subscribe_with_conn : Bytes → Bytes → QosLevel → ℕ → PushSender → Broker → Broker × ℕ
subscribe_with_conn client_id topic qos conn_id push_sender b =
    subscribe_inner client_id topic qos (some conn_id) (some push_sender) none b

pub subscribe_with_slot : Bytes → Bytes → QosLevel → ℕ → PushSlot → Broker → Broker × ℕ
subscribe_with_slot client_id topic qos conn_id slot b =
    subscribe_inner client_id topic qos (some conn_id) none (some slot) b

pub subscribe_with_slot_in_group :
    Bytes → Bytes → QosLevel → ℕ → PushSlot → Bytes → Broker → Broker × ℕ
subscribe_with_slot_in_group client_id topic qos conn_id slot group b =
    subscribe_inner_grouped client_id topic qos (some conn_id) none (some slot) (some group) b

pub subscribe_in_group : Bytes → Bytes → QosLevel → Bytes → Broker → Broker × ℕ
subscribe_in_group client_id topic qos group b =
    subscribe_inner_grouped client_id topic qos none none none (some group) b

-- The wildcard pattern goes into the list that every publish scans.
watch : SubjectPattern → Broker × ℕ → Broker × ℕ
watch pattern (b, id) =
    let wcs = b.wildcard_subs ++ ((pattern, id) ∷ []) in
    (record b { wildcard_subs = wcs; wildcard_subs_len = length wcs % 2 ^ 64 }, id)

pub subscribe_pattern : Bytes → SubjectPattern → QosLevel → Broker → Broker × ℕ
subscribe_pattern client_id pattern qos b =
    if is_exact pattern
    then subscribe client_id (exact_subject pattern) qos b
    else watch pattern (subscribe_inner client_id pattern.raw qos none none none b)

pub subscribe_pattern_with_slot :
    Bytes → SubjectPattern → QosLevel → ℕ → PushSlot → Broker → Broker × ℕ
subscribe_pattern_with_slot client_id pattern qos conn_id slot b =
    if is_exact pattern
    then subscribe_with_slot client_id (exact_subject pattern) qos conn_id slot b
    else watch pattern (subscribe_inner client_id pattern.raw qos (some conn_id) none (some slot) b)
