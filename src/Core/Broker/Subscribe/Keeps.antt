-- ===== src/Core/Broker/Subscribe/Keeps.antt =====
-- The `subscribe` methods of core/src/lib.rs keep the registry.
use native.Mathlib.Nat.{mod-eq_of_lt}
use blipmq.Prelude.{
  ℕ, false, length, length-append, ◌+◌, ◌<◌, ◌^◌, ◌≡◌, ◌≢◌, refl, sym, ◌∙◌, Option-cases, subst,
  arith, ◌==◌, Bool-cases, inl, inr, All-map, All-append, [], ◌∷◌, ◌++◌, Option, none, some,
}
use blipmq.Wire.Buf.{Bytes}
use blipmq.Core.LogError.{QosLevel}
use blipmq.Core.Subject.{SubjectPattern, is_exact}
use blipmq.Core.TagMap.{get, insert, get-insert}
use blipmq.Core.NameMap.{or_insert, All-or_insert, All-alter}
use blipmq.Core.Subscriber.{PushSender, PushSlot}
use blipmq.Core.Broker.{ConsumerGroup, Topic, Broker, new_group, new_topic}
use blipmq.Core.Broker.Registry.{Refs, On, GroupOn, TopicOn, WatchOn, Below, IsRegistry}
use blipmq.Core.Broker.Subscribe.{
  join_group, join_topic, subscribe_inner_grouped, subscribe_inner, subscribe, watch,
  subscribe_pattern, subscribe_pattern_with_slot, subscribe_with_slot,
}

module _ (subs : Refs) (id : ℕ) (topic : Bytes) (group : Option Bytes)
    (fresh : get id subs ≡ none) where
  abbrev grown : Refs
  grown = insert id (record { topic = topic; group = group }) subs

  grow-On : (t : Bytes) (g : Option Bytes) (x : ℕ) → On t g subs x → On t g grown x
  grow-On t g x h = ground (arith, get-insert id x (record { topic = topic; group = group }) subs)

  id-On : On topic group grown id
  id-On = ground (arith, get-insert id id (record { topic = topic; group = group }) subs)

  grow-GroupOn : (t : Bytes) (g : Bytes × ConsumerGroup) → GroupOn t subs g → GroupOn t grown g
  grow-GroupOn t (name, g) h =
      All-map (On t (some name) subs) (On t (some name) grown) g.members (grow-On t (some name)) h

  grow-TopicOn : (e : Bytes × Topic) → TopicOn subs e → TopicOn grown e
  grow-TopicOn (t, x) h = (
    All-map (On t none subs) (On t none grown) x.subscribers (grow-On t none) h.0,
    All-map (GroupOn t subs) (GroupOn t grown) x.consumer_groups (grow-GroupOn t) h.1,
  )

  grow-WatchOn : (e : SubjectPattern × ℕ) → WatchOn subs e → WatchOn grown e
  grow-WatchOn (p, x) h e =
      ground (arith, get-insert id x (record { topic = topic; group = group }) subs)

  grow-Below : (next : ℕ) → id < next → Below subs id → Below grown next
  grow-Below next h below x there = elim (Bool-cases (id == x)) [
    | inl same ↦ let e : id ≡ x = ground arith in omega arith
    | inr other ↦
        let e : get x grown ≡ get x subs =
          ground (arith, get-insert id x (record { topic = topic; group = group }) subs) in
        omega (arith, below x (λ n. there (e ∙ n)))
  ]

Below-fresh : (subs : Refs) (id : ℕ) → Below subs id → get id subs ≡ none
Below-fresh subs id below = elim (Option-cases (get id subs)) [
  | inl absent ↦ absent
  | inr (r, e) ↦ absurd (omega (arith, below id (λ n. ground (arith, e, n))))
]

join_topic-TopicOn :
    (group : Option Bytes) (id : ℕ) (topic : Bytes) (subs : Refs) (t : Topic)
    → On topic group subs id
    → TopicOn subs (topic, t)
    → TopicOn subs (topic, join_topic group id t)
unfolding join_topic join_group new_group
join_topic-TopicOn none id topic subs t on h =
    (All-append (On topic none subs) t.subscribers (id ∷ []) h.0 (on, tt), h.1)
join_topic-TopicOn (some name) id topic subs t on h = (
  h.0,
  All-alter (GroupOn topic subs) (GroupOn topic subs) name
      (λ g. record g { members = g.members ++ (id ∷ []) })
      (or_insert name new_group t.consumer_groups)
      (λ g old. All-append (On topic (some name) subs) g.members (id ∷ []) old (on, tt))
      (λ j g ne old. old)
      (All-or_insert (GroupOn topic subs) name new_group t.consumer_groups tt h.1),
)

pub subscribe_inner_grouped-IsRegistry :
    (client_id topic : Bytes) (qos : QosLevel) (conn_id : Option ℕ)
    (push_sender : Option PushSender) (push_slot : Option PushSlot) (group : Option Bytes)
    (b : Broker)
    → IsRegistry b
    → b.next_subscription_id + 1 < 2 ^ 64
    → IsRegistry
        (subscribe_inner_grouped client_id topic qos conn_id push_sender push_slot group b).0
unfolding subscribe_inner_grouped new_topic
subscribe_inner_grouped-IsRegistry client_id topic qos conn_id push_sender push_slot group b v
      room =
    let id : ℕ = b.next_subscription_id in
    let fresh : get id b.subscriptions ≡ none = Below-fresh b.subscriptions id v.ids_below in
    let subs : Refs = grown b.subscriptions id topic group fresh in
    record {
      topics_on =
          All-alter (TopicOn subs) (TopicOn subs) topic (join_topic group id)
            (or_insert topic (new_topic topic) b.topics)
            (λ t h.
              join_topic-TopicOn group id topic subs t (id-On b.subscriptions id topic group fresh)
                h)
            (λ j t ne h. h)
            (All-or_insert (TopicOn subs) topic (new_topic topic) b.topics (tt, tt)
              (All-map (TopicOn b.subscriptions) (TopicOn subs) b.topics
                (grow-TopicOn b.subscriptions id topic group fresh) v.topics_on));
      watches_on =
          All-map (WatchOn b.subscriptions) (WatchOn subs) b.wildcard_subs
            (grow-WatchOn b.subscriptions id topic group fresh) v.watches_on;
      ids_below =
          subst (Below subs) (sym (mod-eq_of_lt room))
            (grow-Below b.subscriptions id topic group fresh (id + 1) (omega arith) v.ids_below);
      counted = v.counted;
    }

-- A new wildcard subscription is put on the list with its id.
watch-IsRegistry :
    (pattern : SubjectPattern) (r : Broker × ℕ)
    → IsRegistry r.0
    → get r.1 r.0.subscriptions ≢ none
    → IsRegistry (watch pattern r).0
unfolding watch
watch-IsRegistry pattern (b, id) v there = record {
  topics_on = v.topics_on;
  watches_on =
      All-append (WatchOn b.subscriptions) b.wildcard_subs ((pattern, id) ∷ []) v.watches_on
        (there, tt);
  ids_below = v.ids_below;
  counted = refl;
}

subscribe_inner_grouped-there :
    (client_id topic : Bytes) (qos : QosLevel) (conn_id : Option ℕ)
    (push_sender : Option PushSender) (push_slot : Option PushSlot) (group : Option Bytes)
    (b : Broker)
    → let r = subscribe_inner_grouped client_id topic qos conn_id push_sender push_slot group b in
      get r.1 r.0.subscriptions ≢ none
unfolding subscribe_inner_grouped
subscribe_inner_grouped-there client_id topic qos conn_id push_sender push_slot group b n = ground (
  arith,
  get-insert b.next_subscription_id b.next_subscription_id (record { topic = topic; group = group })
      b.subscriptions,
)

-- The general form of the methods that subscribe to a pattern: with or without a slot.
pub subscribe_pattern-IsRegistry :
    (client_id : Bytes) (pattern : SubjectPattern) (qos : QosLevel) (b : Broker)
    → IsRegistry b
    → b.next_subscription_id + 1 < 2 ^ 64
    → IsRegistry (subscribe_pattern client_id pattern qos b).0
unfolding subscribe_pattern subscribe subscribe_inner
subscribe_pattern-IsRegistry client_id pattern qos b v room = elim (Bool-cases (is_exact pattern)) [
  | inl exact ↦ rw exact (subscribe_inner_grouped-IsRegistry _ _ _ _ _ _ _ b v room)
  | inr wild ↦ rw wild (
      watch-IsRegistry pattern _ (subscribe_inner_grouped-IsRegistry _ _ _ _ _ _ _ b v room)
        (subscribe_inner_grouped-there _ _ _ _ _ _ _ b))
]

pub subscribe_pattern_with_slot-IsRegistry :
    (client_id : Bytes) (pattern : SubjectPattern) (qos : QosLevel) (conn_id : ℕ) (slot : PushSlot)
    (b : Broker)
    → IsRegistry b
    → b.next_subscription_id + 1 < 2 ^ 64
    → IsRegistry (subscribe_pattern_with_slot client_id pattern qos conn_id slot b).0
unfolding subscribe_pattern_with_slot subscribe_with_slot subscribe_inner
subscribe_pattern_with_slot-IsRegistry client_id pattern qos conn_id slot b v room =
    elim (Bool-cases (is_exact pattern)) [
      | inl exact ↦ rw exact (subscribe_inner_grouped-IsRegistry _ _ _ _ _ _ _ b v room)
      | inr wild ↦ rw wild (
          watch-IsRegistry pattern _ (subscribe_inner_grouped-IsRegistry _ _ _ _ _ _ _ b v room)
            (subscribe_inner_grouped-there _ _ _ _ _ _ _ b))
    ]

-- A wildcard subscription adds its pattern.
pub subscribe_pattern-length :
    (client_id : Bytes) (pattern : SubjectPattern) (qos : QosLevel) (b : Broker)
    → is_exact pattern ≡ false
    → length (subscribe_pattern client_id pattern qos b).0.wildcard_subs
      ≡ length b.wildcard_subs + 1
unfolding subscribe_pattern subscribe_inner subscribe_inner_grouped watch
subscribe_pattern-length client_id pattern qos b wild =
    rw wild (omega (arith, length-append b.wildcard_subs ((pattern, b.next_subscription_id) ∷ [])))
