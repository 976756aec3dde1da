-- ===== src/Core/NameMap.antt =====
-- The standard library's `HashMap` with a string as its key, as an association list in the order of
-- its iteration.
use mathlib.Core.Option
use blipmq.Prelude.{
  ◌≡◌, ◌≢◌, subst, All, refl, sym, arith, Bool-cases, Option, none, some, List, [], ◌∷◌,
  if◌then◌else◌, inl, inr,
}
use blipmq.Wire.Buf.{Bytes}
use blipmq.Core.Subject.{bytes_eq}
use blipmq.Core.Subject.Split.{bytes_eq_iff}

module _ {V : Type 0} where
  unfoldable pub find : Bytes → List (Bytes × V) → Option V
  find k [] = none
  find k ((j, v) ∷ m) = if bytes_eq j k then some v else find k m

  -- `m.entry(k).or_insert(v)`: what is there is kept.
  unfoldable pub or_insert : Bytes → V → List (Bytes × V) → List (Bytes × V)
  or_insert k v [] = (k, v) ∷ []
  or_insert k v ((j, w) ∷ m) =
      let rest = or_insert k v m in if bytes_eq j k then (j, w) ∷ m else (j, w) ∷ rest

  -- A write through a reference to a value of the map.
  unfoldable pub alter : Bytes → (V → V) → List (Bytes × V) → List (Bytes × V)
  alter k f [] = []
  alter k f ((j, v) ∷ m) =
      let rest = alter k f m in if bytes_eq j k then (j, f v) ∷ rest else (j, v) ∷ rest

  pub find-or_insert :
      (k j : Bytes) (v : V) (m : List (Bytes × V))
      → find j (or_insert k v m)
        ≡ (if bytes_eq k j then some (elim (find j m) [ some w ↦ w | none ↦ v ]) else find j m)
  unfolding find or_insert
  find-or_insert k j v [] = refl
  find-or_insert k j v ((i, w) ∷ m) =
      ground (arith, bytes_eq_iff k j, bytes_eq_iff i k, bytes_eq_iff i j, find-or_insert k j v m)

  pub find-alter :
      (k j : Bytes) (f : V → V) (m : List (Bytes × V))
      → find j (alter k f m) ≡ (if bytes_eq k j then Option.map f (find j m) else find j m)
  unfolding find alter
  find-alter k j f [] = ground arith
  find-alter k j f ((i, w) ∷ m) =
      ground (arith, bytes_eq_iff k j, bytes_eq_iff i k, bytes_eq_iff i j, find-alter k j f m)

  pub All-or_insert :
      (P : Bytes × V → Type 0) (k : Bytes) (v : V) (m : List (Bytes × V))
      → P (k, v)
      → All P m
      → All P (or_insert k v m)
  unfolding or_insert
  All-or_insert P k v [] p h = (p, tt)
  All-or_insert P k v ((j, w) ∷ m) p h = elim (Bool-cases (bytes_eq j k)) [
    | inl same ↦ rw same h
    | inr other ↦ rw other (h.0, All-or_insert P k v m p h.1)
  ]

  pub All-alter :
      (P Q : Bytes × V → Type 0) (k : Bytes) (f : V → V) (m : List (Bytes × V))
      → ((v : V) → P (k, v) → Q (k, f v))
      → ((j : Bytes) (v : V) → j ≢ k → P (j, v) → Q (j, v))
      → All P m
      → All Q (alter k f m)
  unfolding alter
  All-alter P Q k f [] at away h = tt
  All-alter P Q k f ((j, v) ∷ m) at away h = elim (Bool-cases (bytes_eq j k)) [
    | inl same ↦
        let e : j ≡ k = (bytes_eq_iff j k).0 same in
        rw same (
          subst (λ i. Q (i, f v)) (sym e) (at v (subst (λ i. P (i, v)) e h.0)),
          All-alter P Q k f m at away h.1,
        )
    | inr other ↦
        let ne : j ≢ k = λ e. ground (arith, (bytes_eq_iff j k).1 e) in
        rw other (away j v ne h.0, All-alter P Q k f m at away h.1)
  ]

  -- What holds of every entry holds of one that is found.
  pub find-All :
      (P : Bytes × V → Type 0) (k : Bytes) (v : V) (m : List (Bytes × V))
      → find k m ≡ some v
      → All P m
      → P (k, v)
  unfolding find
  find-All P k v [] e h = absurd (ground arith)
  find-All P k v ((j, w) ∷ m) e h = elim (Bool-cases (bytes_eq j k)) [
    | inl same ↦
        let i : j ≡ k = (bytes_eq_iff j k).0 same in
        let x : w ≡ v = ground arith in subst (λ k. P (k, v)) i (subst (λ v. P (j, v)) x h.0)
    | inr other ↦ find-All P k v m (ground arith) h.1
  ]
