-- ===== src/Core/Broker/Publish/Reached.antt =====
-- Whom `publish_inner` of core/src/lib.rs reaches.
use native.Mathlib.Nat.{mod-eq_of_lt}
use blipmq.Prelude.{
  ℕ, ◌<◌, ◌^◌, ◌↔◌, ◌++◌, arith, length, ◌≡◌, ◌⊎◌, inl, inr, refl, sym, subst, ltb, Bool-cases, All,
  All-map, All-append, List, [], ◌∷◌, Option, none, some,
}
use blipmq.Wire.Buf.{Bytes}
use blipmq.Core.Subject.{SubjectPattern}
use blipmq.Core.NameMap.{find, find-All}
use blipmq.Core.Broker.{ConsumerGroup, Topic, Broker}
use blipmq.Core.Broker.Registry.{On, GroupOn, TopicOn, IsRegistry}
use blipmq.Core.Broker.Publish.{
  pick, pick_all, topic_targets, from_topic, wildcard_targets, targets,
}
use blipmq.Core.Broker.Publish.Targets.{Member, pick_one}
use blipmq.Core.Broker.Publish.Wildcards.{Watches, Subscribed, wildcard_targets-Watches}

pub All-Member : (P : ℕ → Type 0) (xs : List ℕ) (x : ℕ) → All P xs → Member x xs → P x
All-Member P [] x h m = absurd m
All-Member P (y ∷ ys) x h (inl e) = subst P (sym e) h.0
All-Member P (y ∷ ys) x h (inr m) = All-Member P ys x h.1 m

All-of_Member : (P : ℕ → Type 0) (xs : List ℕ) → ((x : ℕ) → Member x xs → P x) → All P xs
All-of_Member P [] f = tt
All-of_Member P (x ∷ xs) f = (f x (inl refl), All-of_Member P xs (λ y m. f y (inr m)))

-- The id is registered for the topic, or watches a pattern that matches the subject.
abbrev pub Reaches : Bytes → Bytes → Broker → ℕ → Type 0
Reaches subject topic b id =
    ((group : Option Bytes) × On topic group b.subscriptions id)
    ⊎ (Watches id subject b.wildcard_subs × Subscribed id b.subscriptions)

module _ (hash : Bytes → ℕ) (key : Option Bytes) (subject topic : Bytes) (b : Broker) where
  abbrev Hit : ℕ → Type 0
  Hit = Reaches subject topic b

  pick-Reaches :
      (name : Bytes) (g : ConsumerGroup)
      → All (On topic (some name) b.subscriptions) g.members
      → All Hit (pick hash key g).0
  pick-Reaches name g h = elim (pick_one hash key g) [
    | inl (x, e, m) ↦
        rw e
          (inl (some name, All-Member (On topic (some name) b.subscriptions) g.members x h m), tt)
    | inr (_, e) ↦ rw e tt
  ]

  pick_all-Reaches :
      (gs : List (Bytes × ConsumerGroup))
      → All (GroupOn topic b.subscriptions) gs
      → All Hit (pick_all hash key gs).0
  unfolding pick_all
  pick_all-Reaches [] h = tt
  pick_all-Reaches ((name, g) ∷ gs) h =
      All-append Hit (pick hash key g).0 (pick_all hash key gs).0 (pick-Reaches name g h.0)
        (pick_all-Reaches gs h.1)

  topic_targets-Reaches :
      (t : Topic) → TopicOn b.subscriptions (topic, t) → All Hit (topic_targets hash key t).0
  unfolding topic_targets
  topic_targets-Reaches t h =
      All-append Hit t.subscribers (pick_all hash key t.consumer_groups).0
        (All-map (On topic none b.subscriptions) Hit t.subscribers (λ x on. inl (none, on)) h.0)
        (pick_all-Reaches t.consumer_groups h.1)

  from_topic-Reaches :
      (o : Option Topic)
      → ((t : Topic) → o ≡ some t → TopicOn b.subscriptions (topic, t))
      → All Hit (from_topic hash key o)
  unfolding from_topic
  from_topic-Reaches none h = tt
  from_topic-Reaches (some t) h = topic_targets-Reaches t (h t refl)

  wildcard_targets-Reaches : All Hit (wildcard_targets subject b.wildcard_subs b.subscriptions)
  wildcard_targets-Reaches =
      All-of_Member Hit _
        (λ x m. inr ((wildcard_targets-Watches x subject b.wildcard_subs b.subscriptions).0 m))

  -- In a broker with a proper registry a publish to a subject reaches only subscriptions that are
  -- registered: for the topic, alone or in a group, or with a pattern that matches the subject.
  pub targets-Reaches : IsRegistry b → All Hit (targets hash subject topic key b)
  unfolding targets
  targets-Reaches v =
      All-append Hit (from_topic hash key (find topic b.topics)) _
        (from_topic-Reaches (find topic b.topics)
          (λ t e. find-All (TopicOn b.subscriptions) topic t b.topics e v.topics_on))
        (elim (Bool-cases (ltb 0 b.wildcard_subs_len)) [
          | inl several ↦ rw several wildcard_targets-Reaches
          | inr nothing ↦ rw nothing tt
        ])

Member-append : (id : ℕ) (xs ys : List ℕ) → Member id (xs ++ ys) ↔ (Member id xs ⊎ Member id ys)
Member-append id [] ys = (inr, λ h. elim h [ inl m ↦ absurd m | inr m ↦ m ])
Member-append id (x ∷ xs) ys = ground (arith, Member-append id xs ys)

-- Without a pattern nothing is watched.
no-Watches :
    (id : ℕ) (subject : Bytes) (ws : List (SubjectPattern × ℕ))
    → length ws ≡ 0
    → ¬ Watches id subject ws
no-Watches id subject [] none_there w = w
no-Watches id subject (p ∷ ws) some_there w = absurd (omega arith)

-- The targets, if the counter of the patterns is right.
pub targets-Watches :
    (hash : Bytes → ℕ) (key : Option Bytes) (subject topic : Bytes) (b : Broker) (id : ℕ)
    → IsRegistry b
    → length b.wildcard_subs < 2 ^ 64
    → Member id (targets hash subject topic key b) ↔ (
        Member id (from_topic hash key (find topic b.topics))
        ⊎ (Watches id subject b.wildcard_subs × Subscribed id b.subscriptions))
unfolding targets
targets-Watches hash key subject topic b id v small =
    let own : List ℕ = from_topic hash key (find topic b.topics) in
    let all : List ℕ = wildcard_targets subject b.wildcard_subs b.subscriptions in
    let watching = wildcard_targets-Watches id subject b.wildcard_subs b.subscriptions in
    elim (Bool-cases (ltb 0 b.wildcard_subs_len)) [
      | inl some_there ↦
          let (to, from) = Member-append id own all in
          rw some_there (
            λ h. elim (to h) [ inl m ↦ inl m | inr m ↦ inr (watching.0 m) ],
            λ h. from (elim h [ inl m ↦ inl m | inr m ↦ inr (watching.1 m) ]),
          )
      | inr nobody ↦
          let (to, from) = Member-append id own [] in
          let none_there =
            no-Watches id subject b.wildcard_subs
              (ground (arith, nobody, v.counted, small, mod-eq_of_lt small)) in
          rw nobody (
            λ h. elim (to h) [ inl m ↦ inl m | inr m ↦ absurd m ],
            λ h. from (elim h [ inl m ↦ inl m | inr m ↦ absurd (none_there m.0) ]),
          )
    ]
