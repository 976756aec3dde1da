-- ===== src/Core/Broker/Publish/Wildcards.antt =====
-- Which wildcard subscriptions `publish_inner` of core/src/lib.rs reaches.
use blipmq.Prelude.{
  ℕ, ◌≡◌, ◌≢◌, ◌⊎◌, ◌↔◌, inl, inr, refl, arith, true, Bool-cases, Option-cases, List, [], ◌∷◌, none,
  some, if◌then◌else◌,
}
use blipmq.Wire.Buf.{Bytes}
use blipmq.Core.Subject.{SubjectPattern, split}
use blipmq.Core.Subject.Match.{Matches, matches-Decides}
use blipmq.Core.TagMap.{get}
use blipmq.Core.Broker.{SubscriptionRef}
use blipmq.Core.Broker.Publish.{does_match, wildcard_targets}
use blipmq.Core.Broker.Publish.Targets.{Member}

abbrev pub Watched : SubjectPattern → Bytes → Type 0
Watched p subject = Matches p.segments p.has_tail (split subject)

-- The id watches a pattern that matches the subject.
abbrev pub Watches : ℕ → Bytes → List (SubjectPattern × ℕ) → Type 0
Watches id subject [] = ⊥
Watches id subject ((p, x) ∷ ws) = ((id ≡ x) × Watched p subject) ⊎ Watches id subject ws

abbrev pub Subscribed : ℕ → List (ℕ × SubscriptionRef) → Type 0
Subscribed id subscriptions = get id subscriptions ≢ none

does_match_iff :
    (p : SubjectPattern) (subject : Bytes) → (does_match p subject ≡ true) ↔ Watched p subject
unfolding does_match
does_match_iff p subject = elim (matches-Decides p subject) [
  | inl (e, hit) ↦ rw (e, does_match) (λ h. hit, λ h. refl)
  | inr (e, miss) ↦ rw (e, does_match) (λ h. absurd (ground arith), λ h. absurd (miss h))
]

-- One entry of the list.
head_target : Bytes → SubjectPattern → ℕ → List (ℕ × SubscriptionRef) → List ℕ → List ℕ
head_target subject p x subscriptions rest =
    if does_match p subject
    then elim (get x subscriptions) [ none ↦ rest | some r ↦ x ∷ rest ]
    else rest

Member-head_target :
    (id x : ℕ) (subject : Bytes) (p : SubjectPattern) (subscriptions : List (ℕ × SubscriptionRef))
    (rest : List ℕ) (W : Type 0)
    → Member id rest ↔ (W × Subscribed id subscriptions)
    → Member id (head_target subject p x subscriptions rest)
      ↔ ((((id ≡ x) × Watched p subject) ⊎ W) × Subscribed id subscriptions)
unfolding head_target
Member-head_target id x subject p subscriptions rest W (to, from) =
    elim (Bool-cases (does_match p subject)) [
      | inl hit ↦
          let w : Watched p subject = (does_match_iff p subject).0 hit in
          elim (Option-cases (get x subscriptions)) [
            | inl absent ↦ rw (hit, absent) (ground arith)
            | inr (r, e) ↦ rw (hit, e) (ground arith)
          ]
      | inr miss ↦ rw miss (ground (arith, (does_match_iff p subject).1))
    ]

-- The ids that the scan of the patterns gives are those that watch a pattern that matches the subject and
-- are still registered.
pub wildcard_targets-Watches :
    (id : ℕ) (subject : Bytes) (ws : List (SubjectPattern × ℕ))
    (subscriptions : List (ℕ × SubscriptionRef))
    → Member id (wildcard_targets subject ws subscriptions)
      ↔ (Watches id subject ws × Subscribed id subscriptions)
unfolding wildcard_targets head_target
wildcard_targets-Watches id subject [] subscriptions = (λ m. absurd m, λ h. h.0)
wildcard_targets-Watches id subject ((p, x) ∷ ws) subscriptions =
    Member-head_target id x subject p subscriptions (wildcard_targets subject ws subscriptions)
      (Watches id subject ws) (wildcard_targets-Watches id subject ws subscriptions)
