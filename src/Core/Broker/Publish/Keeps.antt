-- ===== src/Core/Broker/Publish/Keeps.antt =====
-- `publish_inner` of core/src/lib.rs keeps the registry.
use blipmq.Prelude.{
  ℕ, ◌≡◌, ◌⊎◌, refl, ap, sym, subst, ltb, none, Option-cases, Bool-cases, inl, inr, if-holds, All,
  List, [], ◌∷◌, Option, some,
}
use blipmq.Wire.Buf.{Bytes}
use blipmq.Core.LogError.{QosLevel}
use blipmq.Core.NameMap.{find, All-alter}
use blipmq.Core.Broker.{ConsumerGroup, Topic, Broker, add, resolve_topic}
use blipmq.Core.Broker.Registry.{Refs, On, GroupOn, TopicOn, IsRegistry}
use blipmq.Core.Broker.Unsubscribe.{unsubscribe_one}
use blipmq.Core.Broker.Unsubscribe.Keeps.{unsubscribe_one-IsRegistry}
use blipmq.Core.Broker.Publish.{
  Fan, pick_all, topic_targets, unsubscribe_all, settle, publish_inner,
}
use blipmq.Core.Broker.Publish.Targets.{pick-members}

module _ (hash : Bytes → ℕ) (key : Option Bytes) (topic : Bytes) (subs : Refs) where
  pick_all-GroupOn :
      (gs : List (Bytes × ConsumerGroup))
      → All (GroupOn topic subs) gs
      → All (GroupOn topic subs) (pick_all hash key gs).1
  unfolding pick_all
  pick_all-GroupOn [] h = tt
  pick_all-GroupOn ((name, g) ∷ gs) h = (
    subst (All (On topic (some name) subs)) (sym (pick-members hash key g)) h.0,
    pick_all-GroupOn gs h.1,
  )

  topic_targets-TopicOn :
      (t : Topic) → TopicOn subs (topic, t) → TopicOn subs (topic, (topic_targets hash key t).1)
  unfolding topic_targets
  topic_targets-TopicOn t h = (h.0, pick_all-GroupOn t.consumer_groups h.1)

unsubscribe_all-IsRegistry :
    (ids : List ℕ) (b : Broker) → IsRegistry b → IsRegistry (unsubscribe_all ids b)
unfolding unsubscribe_all
unsubscribe_all-IsRegistry [] b v = v
unsubscribe_all-IsRegistry (id ∷ ids) b v =
    unsubscribe_all-IsRegistry ids (unsubscribe_one id b).0 (unsubscribe_one-IsRegistry id b v)

settle-IsRegistry :
    (resolved : Bytes) (f : Fan) (b : Broker) → IsRegistry b → IsRegistry (settle resolved f b)
unfolding settle
settle-IsRegistry resolved f b v = elim (Bool-cases (ltb 0 f.delivered_count)) [
  | inl some_delivered ↦ rw some_delivered (record {
    topics_on =
        All-alter (TopicOn b.subscriptions) (TopicOn b.subscriptions) resolved
          (λ t. record t { delivered_total = add t.delivered_total f.delivered_count }) b.topics
          (λ t h. h) (λ j t ne h. h) v.topics_on;
    watches_on = v.watches_on;
    ids_below = v.ids_below;
    counted = v.counted;
  })
  | inr nobody ↦ rw nobody (record {
    topics_on = v.topics_on;
    watches_on = v.watches_on;
    ids_below = v.ids_below;
    counted = v.counted;
  })
]

pub publish_inner-IsRegistry :
    (hash : Bytes → ℕ) (now : ℕ) (topic : Bytes) (pre_resolved : Option Bytes) (payload : Bytes)
    (qos : QosLevel) (wal_id ttl_override : Option ℕ) (partition_key : Option Bytes) (b : Broker)
    → IsRegistry b
    → IsRegistry
        (publish_inner hash now topic pre_resolved payload qos wal_id ttl_override partition_key b)
unfolding publish_inner
publish_inner-IsRegistry hash now topic pre_resolved payload qos wal_id ttl_override key b v =
    if-holds IsRegistry b.shutting_down _ _ (λ _. v)
      (λ _. unsubscribe_all-IsRegistry _ _ (
        settle-IsRegistry _ _ _ (record {
          topics_on =
              All-alter (TopicOn b.subscriptions) (TopicOn b.subscriptions) _
                (λ t. (topic_targets hash key t).1) b.topics
                (λ t h. topic_targets-TopicOn hash key _ b.subscriptions t h) (λ j t ne h. h)
                v.topics_on;
          watches_on = v.watches_on;
          ids_below = v.ids_below;
          counted = v.counted;
        })))

-- The handle of a topic is the topic.
pub resolve_topic-cases :
    (name : Bytes) (b : Broker) → (resolve_topic name b ≡ none) ⊎ (resolve_topic name b ≡ some name)
unfolding resolve_topic
resolve_topic-cases name b = elim (Option-cases (find name b.topics)) [
  | inl absent ↦ inl (rw (absent, resolve_topic) refl)
  | inr (t, e) ↦ inr (rw (e, resolve_topic) refl)
]

-- A publish with the handle of its topic is the publish without one.
pub publish_inner-handle :
    (hash : Bytes → ℕ) (now : ℕ) (topic : Bytes) (handle : Option Bytes) (payload : Bytes)
    (qos : QosLevel) (wal_id ttl_override : Option ℕ) (key : Option Bytes) (b : Broker)
    → (handle ≡ none) ⊎ (handle ≡ some topic)
    → publish_inner hash now topic handle payload qos wal_id ttl_override key b
      ≡ publish_inner hash now topic none payload qos wal_id ttl_override key b
unfolding publish_inner
publish_inner-handle hash now topic handle payload qos wal_id ttl key b (inl e) =
    ap (λ (x : Option Bytes). publish_inner hash now topic x payload qos wal_id ttl key b) e
publish_inner-handle hash now topic handle payload qos wal_id ttl key b (inr e) =
    ap (λ (x : Option Bytes). publish_inner hash now topic x payload qos wal_id ttl key b) e
