-- ===== src/Core/Broker/Publish/Targets.antt =====
-- Which member of a consumer group a publish picks, in `publish_inner` of core/src/lib.rs.
use native.Mathlib.Nat.{mod-lt}
use blipmq.Prelude.{
  ℕ, zero, suc, ◌%◌, ◌<◌, ◌≡◌, refl, sym, ◌⊎◌, ap, ◌∙◌, arith, Bool-cases, inl, inr, List, [], ◌∷◌,
  ◌++◌, length, Option, none, some, ◌==◌, if◌then◌else◌,
}
use blipmq.Wire.Buf.{Bytes}
use blipmq.Core.Broker.{ConsumerGroup}
use blipmq.Core.Broker.Publish.{member_at, pick_index, some_id, pick}

-- The ids that so many publishes in a row, without a key, pick of the group.
abbrev pub picks : (Bytes → ℕ) → ℕ → ConsumerGroup → List ℕ
picks hash zero g = []
picks hash (suc n) g = (pick hash none g).0 ++ picks hash n (pick hash none g).1

module _ (hash : Bytes → ℕ) (ms : List ℕ) (some_members : 0 < length ms) where
  abbrev at : ℕ → ConsumerGroup
  at idx = record { members = ms; next_idx = idx }

abbrev pub Member : ℕ → List ℕ → Type 0
Member x [] = ⊥
Member x (y ∷ ys) = (x ≡ y) ⊎ Member x ys

nil_of_length : (ms : List ℕ) → length ms ≡ 0 → ms ≡ []
nil_of_length [] h = refl
nil_of_length (x ∷ xs) h = absurd (omega arith)

member_at-Member :
    (i : ℕ) (ms : List ℕ) → i < length ms → (x : ℕ) × (member_at i ms ≡ some x) × Member x ms
unfolding member_at
member_at-Member i [] h = absurd (omega arith)
member_at-Member zero (x ∷ xs) h = (x, refl, inl refl)
member_at-Member (suc i) (x ∷ xs) h =
    let (y, e, m) = member_at-Member i xs (omega arith) in (y, e, inr m)

pick_index-lt :
    (hash : Bytes → ℕ) (key : Option Bytes) (g : ConsumerGroup)
    → 0 < length g.members
    → (pick_index hash key g).0 < length g.members
unfolding pick_index
pick_index-lt hash none g h = mod-lt g.next_idx h
pick_index-lt hash (some []) g h = mod-lt g.next_idx h
pick_index-lt hash (some (k ∷ ks)) g h = mod-lt (hash (k ∷ ks)) h

pub pick-members :
    (hash : Bytes → ℕ) (key : Option Bytes) (g : ConsumerGroup)
    → (pick hash key g).1.members ≡ g.members
unfolding pick pick_index
pick-members hash none g = ground arith
pick-members hash (some []) g = ground arith
pick-members hash (some (k ∷ ks)) g = ground arith

-- With a key only the members matter.
pick-keyed :
    (hash : Bytes → ℕ) (k : ℕ) (ks : Bytes) (g : ConsumerGroup)
    → (pick hash (some (k ∷ ks)) g).0 ≡ (
        if length g.members == 0
        then []
        else some_id (member_at (hash (k ∷ ks) % length g.members) g.members))
unfolding pick pick_index
pick-keyed hash k ks g = ground arith

pub pick_one :
    (hash : Bytes → ℕ) (key : Option Bytes) (g : ConsumerGroup)
    → ((x : ℕ) × ((pick hash key g).0 ≡ x ∷ []) × Member x g.members)
      ⊎ ((g.members ≡ []) × ((pick hash key g).0 ≡ []))
unfolding pick some_id
pick_one hash key g = elim (Bool-cases (length g.members == 0)) [
  | inl nobody ↦ inr (nil_of_length g.members (ground arith), ground arith)
  | inr somebody ↦
      let (x, e, m) =
        member_at-Member (pick_index hash key g).0 g.members
          (pick_index-lt hash key g (ground arith)) in
      inl (x, ground (arith, e), m)
]

-- A publish reaches exactly one member of a group that has some, and none of an empty one. The group
-- keeps its members, and with a key that is not empty it is the same member before and after any
-- other publish.
pub pick-Member :
    (hash : Bytes → ℕ) (key other : Option Bytes) (g : ConsumerGroup)
    → (((x : ℕ) × ((pick hash key g).0 ≡ x ∷ []) × Member x g.members)
        ⊎ ((g.members ≡ []) × ((pick hash key g).0 ≡ [])))
      × ((pick hash key g).1.members ≡ g.members)
      × ((k : ℕ) (ks : Bytes)
          → (pick hash (some (k ∷ ks)) (pick hash other g).1).0 ≡ (pick hash (some (k ∷ ks)) g).0)
pick-Member hash key other g = (
  pick_one hash key g,
  pick-members hash key g,
  λ k ks.
      pick-keyed hash k ks (pick hash other g).1
      ∙ ap
          (λ (ms : List ℕ).
            if length ms == 0 then [] else some_id (member_at (hash (k ∷ ks) % length ms) ms))
          (pick-members hash other g)
      ∙ sym (pick-keyed hash k ks g),
)
