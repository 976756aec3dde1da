-- ===== src/Core/Broker/Unsubscribe/Keeps.antt =====
-- `unsubscribe_one` and `unsubscribe_connection` of core/src/lib.rs keep the registry.
use blipmq.Prelude.{
  ℕ, ◌≡◌, ◌≢◌, refl, sym, ap, subst, arith, ◌==◌, true, Bool-cases, Option-cases, inl, inr, All,
  All-map, List, [], ◌∷◌, length, Option, none, some,
}
use blipmq.Wire.Buf.{Bytes}
use blipmq.Core.Subject.{SubjectPattern}
use blipmq.Core.TagMap.{get, remove, get-remove, remove-absent}
use blipmq.Core.NameMap.{All-alter}
use blipmq.Core.Broker.{ConsumerGroup, Topic, SubscriptionRef, Broker}
use blipmq.Core.Broker.Registry.{Refs, On, GroupOn, TopicOn, WatchOn, Below, IsRegistry}
use blipmq.Core.Broker.Unsubscribe.{
  without, leave_group, leave_topic, leave, unwatch, unsubscribe_one, take_refs, leave_all,
  unwatch_all, drop_ids, ids_of, unsubscribe_connection,
}

module _ (subs : Refs) (id : ℕ) where
  abbrev shrunk : Refs
  shrunk = remove id subs

  -- What is kept of a list of ids on a topic.
  without-On :
      (t : Bytes) (g : Option Bytes) (ids : List ℕ)
      → All (On t g subs) ids
      → All (On t g shrunk) (without id ids)
  unfolding without
  without-On t g [] h = tt
  without-On t g (x ∷ xs) h = elim (Bool-cases (x == id)) [
    | inl same ↦ rw same (without-On t g xs h.1)
    | inr other ↦ rw other (ground (arith, h.0, get-remove id x subs), without-On t g xs h.1)
  ]

  -- On another topic or in another group there is no such id.
  keep-On :
      (t : Bytes) (g : Option Bytes) (x : ℕ)
      → ((On t g subs id) → ⊥)
      → On t g subs x
      → On t g shrunk x
  keep-On t g x away h = elim (Bool-cases (x == id)) [
    | inl same ↦ let e : x ≡ id = ground arith in absurd (away (subst (On t g subs) e h))
    | inr other ↦ ground (arith, h, get-remove id x subs)
  ]

  keep-GroupOn :
      (t : Bytes) (e : Bytes × ConsumerGroup)
      → ((On t (some e.0) subs id) → ⊥)
      → GroupOn t subs e
      → GroupOn t shrunk e
  keep-GroupOn t (name, g) away h =
      All-map (On t (some name) subs) (On t (some name) shrunk) g.members
        (λ x. keep-On t (some name) x away) h

  unwatch-WatchOn :
      (ws : List (SubjectPattern × ℕ))
      → All (WatchOn subs) ws
      → All (WatchOn shrunk) (unwatch id ws)
  unfolding unwatch
  unwatch-WatchOn [] h = tt
  unwatch-WatchOn ((p, x) ∷ ws) h = elim (Bool-cases (x == id)) [
    | inl same ↦ rw same (unwatch-WatchOn ws h.1)
    | inr other ↦
        rw other ((λ e. ground (arith, h.0, get-remove id x subs)), unwatch-WatchOn ws h.1)
  ]

  shrunk-Below : (next : ℕ) → Below subs next → Below shrunk next
  shrunk-Below next below x there = elim (Bool-cases (x == id)) [
    | inl same ↦ absurd (there (ground (arith, get-remove id x subs)))
    | inr other ↦ below x (λ n. there (ground (arith, n, get-remove id x subs)))
  ]

  module _ (r : SubscriptionRef) (registered : get id subs ≡ some r) where
    away-On : (t : Bytes) (g : Option Bytes) → (t ≡ r.topic → g ≡ r.group → ⊥) → On t g subs id → ⊥
    away-On t g differ h = ground (arith, h, registered, differ)

    -- The entries of another topic.
    other-TopicOn : (e : Bytes × Topic) → e.0 ≢ r.topic → TopicOn subs e → TopicOn shrunk e
    other-TopicOn (t, x) ne h = (
      All-map (On t none subs) (On t none shrunk) x.subscribers
          (λ y. keep-On t none y (away-On t none (λ e g. ne e))) h.0,
      All-map (GroupOn t subs) (GroupOn t shrunk) x.consumer_groups
          (λ y. keep-GroupOn t y (away-On t (some y.0) (λ e g. ne e))) h.1,
    )

    leave_topic-TopicOn :
        (group : Option Bytes) (x : Topic)
        → r.group ≡ group
        → TopicOn subs (r.topic, x)
        → TopicOn shrunk (r.topic, leave_topic group id x)
    unfolding leave_topic leave_group
    leave_topic-TopicOn none x e h = (
      without-On r.topic none x.subscribers h.0,
      All-map (GroupOn r.topic subs) (GroupOn r.topic shrunk) x.consumer_groups
          (λ y. keep-GroupOn r.topic y (away-On r.topic (some y.0) (λ _ g. ground (arith, g, e))))
          h.1,
    )
    leave_topic-TopicOn (some name) x e h = (
      All-map (On r.topic none subs) (On r.topic none shrunk) x.subscribers
          (λ y. keep-On r.topic none y (away-On r.topic none (λ _ g. ground (arith, g, e)))) h.0,
      All-alter (GroupOn r.topic subs) (GroupOn r.topic shrunk) name (leave_group id)
          x.consumer_groups (λ g old. without-On r.topic (some name) g.members old)
          (λ j g ne old.
            keep-GroupOn r.topic (j, g)
              (away-On r.topic (some j) (λ _ k. ne (ground (arith, k, e)))) old)
          h.1,
    )

    leave-TopicOn :
        (topics : List (Bytes × Topic))
        → All (TopicOn subs) topics
        → All (TopicOn shrunk) (leave id r topics)
    unfolding leave
    leave-TopicOn topics h =
        All-alter (TopicOn subs) (TopicOn shrunk) r.topic (leave_topic r.group id) topics
          (λ x old. leave_topic-TopicOn r.group x refl old)
          (λ j x ne old. other-TopicOn (j, x) ne old) h

pub unsubscribe_one-IsRegistry :
    (id : ℕ) (b : Broker) → IsRegistry b → IsRegistry (unsubscribe_one id b).0
unfolding unsubscribe_one
unsubscribe_one-IsRegistry id b v = elim (Option-cases (get id b.subscriptions)) [
  | inl absent ↦ rw (absent, unsubscribe_one) v
  | inr (r, e) ↦
      rw (e, unsubscribe_one)
        (record {
          topics_on = leave-TopicOn b.subscriptions id r e b.topics v.topics_on;
          watches_on = unwatch-WatchOn b.subscriptions id b.wildcard_subs v.watches_on;
          ids_below = shrunk-Below b.subscriptions id b.next_subscription_id v.ids_below;
          counted = refl;
        })
]

pub get-unsubscribe_one :
    (id : ℕ) (b : Broker) → get id (unsubscribe_one id b).0.subscriptions ≡ none
unfolding unsubscribe_one
get-unsubscribe_one id b = ground (arith, get-remove id id b.subscriptions)

take_refs-none :
    (id : ℕ) (ids : List ℕ) (subs : Refs)
    → get id subs ≡ none
    → take_refs (id ∷ ids) subs ≡ take_refs ids subs
unfolding take_refs
take_refs-none id ids subs h = ground (arith, h, ap (take_refs ids) (remove-absent id subs h))

take_refs-some :
    (id : ℕ) (ids : List ℕ) (subs : Refs) (r : SubscriptionRef)
    → get id subs ≡ some r
    → take_refs (id ∷ ids) subs
      ≡ ((id, r) ∷ (take_refs ids (remove id subs)).0, (take_refs ids (remove id subs)).1)
unfolding take_refs
take_refs-some id ids subs r h = ground (arith, h)

-- The registry once the ids of a connection are taken out of it.
abbrev Taken : List (Bytes × Topic) → List (SubjectPattern × ℕ) → ℕ → Refs × Refs → Type 0
Taken topics ws next (removed, rest) =
    All (TopicOn rest) (leave_all removed topics)
    × All (WatchOn rest) (unwatch_all removed ws)
    × Below rest next

take_refs-Taken :
    (ids : List ℕ) (subs : Refs) (topics : List (Bytes × Topic)) (ws : List (SubjectPattern × ℕ))
    (next : ℕ)
    → All (TopicOn subs) topics
    → All (WatchOn subs) ws
    → Below subs next
    → Taken topics ws next (take_refs ids subs)
unfolding take_refs leave_all unwatch_all
take_refs-Taken [] subs topics ws next t w b = (t, w, b)
take_refs-Taken (id ∷ ids) subs topics ws next t w b = elim (Option-cases (get id subs)) [
  | inl absent ↦
      subst (Taken topics ws next) (sym (take_refs-none id ids subs absent))
        (take_refs-Taken ids subs topics ws next t w b)
  | inr (r, e) ↦ subst (Taken topics ws next) (sym (take_refs-some id ids subs r e)) (
      take_refs-Taken ids (remove id subs) (leave id r topics) (unwatch id ws) next
        (leave-TopicOn subs id r e topics t) (unwatch-WatchOn subs id ws w)
        (shrunk-Below subs id next b))
]

nil_of_length : (removed : Refs) → (length removed == 0) ≡ true → removed ≡ []
nil_of_length [] h = refl
nil_of_length (x ∷ xs) h = absurd (ground arith)

drop_ids-IsRegistry : (ids : List ℕ) (b : Broker) → IsRegistry b → IsRegistry (drop_ids ids b)
unfolding drop_ids unwatch_all
drop_ids-IsRegistry [] b v = v
drop_ids-IsRegistry (i ∷ is) b v =
    let h =
      take_refs-Taken (i ∷ is) b.subscriptions b.topics b.wildcard_subs b.next_subscription_id
        v.topics_on v.watches_on v.ids_below in
    let removed : Refs = (take_refs (i ∷ is) b.subscriptions).0 in
    let rest : Refs = (take_refs (i ∷ is) b.subscriptions).1 in
    elim (Bool-cases (length removed == 0)) [
      | inl nothing ↦ rw nothing (record {
        topics_on = h.0;
        watches_on =
            subst (λ (l : Refs). All (WatchOn rest) (unwatch_all l b.wildcard_subs))
              (nil_of_length removed nothing) h.1;
        ids_below = h.2;
        counted = v.counted;
      })
      | inr several ↦
          rw several (record { topics_on = h.0; watches_on = h.1; ids_below = h.2; counted = refl })
    ]

pub unsubscribe_connection-IsRegistry :
    (conn_id : ℕ) (b : Broker) → IsRegistry b → IsRegistry (unsubscribe_connection conn_id b)
unfolding unsubscribe_connection drop_ids ids_of
unsubscribe_connection-IsRegistry conn_id b v =
    drop_ids-IsRegistry (ids_of (get conn_id b.connection_subs))
      (record b { connection_subs = remove conn_id b.connection_subs })
      (record {
        topics_on = v.topics_on;
        watches_on = v.watches_on;
        ids_below = v.ids_below;
        counted = v.counted;
      })
