-- ===== src/Core/TagMap.antt =====
-- The standard library's `HashMap` with a number as its key, as an association list with distinct
-- keys. Its order is not observed by the code modelled over it.
use mathlib.Core.Option
use blipmq.Prelude.{
  ℕ, suc, ◌≤◌, ◌≡◌, refl, ap, arith, Option, none, some, List, [], ◌∷◌, length, ◌==◌, if◌then◌else◌,
  Bool-cases, inl, inr, ◌⊎◌, ◌≢◌,
}

module _ {V : Type 0} where
  unfoldable pub get : ℕ → List (ℕ × V) → Option V
  get k [] = none
  get k ((j, v) ∷ m) = if j == k then some v else get k m

  unfoldable pub remove : ℕ → List (ℕ × V) → List (ℕ × V)
  remove k [] = []
  remove k ((j, v) ∷ m) = if j == k then remove k m else (j, v) ∷ remove k m

  unfoldable pub insert : ℕ → V → List (ℕ × V) → List (ℕ × V)
  insert k v m = (k, v) ∷ remove k m

  -- No key stands twice.
  abbrev pub Distinct : List (ℕ × V) → Type 0
  Distinct [] = Unit
  Distinct ((k, v) ∷ m) = (get k m ≡ none) × Distinct m

  pub get-remove :
      (k j : ℕ) (m : List (ℕ × V)) → get j (remove k m) ≡ (if j == k then none else get j m)
  unfolding get remove
  get-remove k j [] = ground arith
  get-remove k j ((i, v) ∷ m) = ground (arith, get-remove k j m)

  pub get-insert :
      (k j : ℕ) (v : V) (m : List (ℕ × V))
      → get j (insert k v m) ≡ (if j == k then some v else get j m)
  unfolding get insert
  get-insert k j v m = ground (arith, get-remove k j m)

  pub remove-absent : (k : ℕ) (m : List (ℕ × V)) → get k m ≡ none → remove k m ≡ m
  unfolding get remove
  remove-absent k [] h = refl
  remove-absent k ((j, v) ∷ m) h = ground (arith, remove-absent k m)

  pub remove-Distinct : (k : ℕ) (m : List (ℕ × V)) → Distinct m → Distinct (remove k m)
  unfolding remove
  remove-Distinct k [] h = tt
  remove-Distinct k ((j, v) ∷ m) h = ground (arith, remove-Distinct k m h.1, get-remove k j m)

  pub insert-Distinct : (k : ℕ) (v : V) (m : List (ℕ × V)) → Distinct m → Distinct (insert k v m)
  unfolding insert
  insert-Distinct k v m h = ground (arith, remove-Distinct k m h, get-remove k k m)

  pub length-remove-le : (k : ℕ) (m : List (ℕ × V)) → length (remove k m) ≤ length m
  unfolding remove
  length-remove-le k [] = omega arith
  length-remove-le k ((j, v) ∷ m) = ground (arith, length-remove-le k m)

  pub length-remove :
      (k : ℕ) (v : V) (m : List (ℕ × V))
      → Distinct m
      → get k m ≡ some v
      → suc (length (remove k m)) ≡ length m
  unfolding get remove
  length-remove k v [] d h = cc
  length-remove k v ((j, w) ∷ m) d h = elim (Bool-cases (j == k)) [
    | inl same ↦ let e : j ≡ k = ground arith in rw (same, remove-absent k m (rw e at d.0)) refl
    | inr other ↦ rw other (ap suc (length-remove k v m d.1 (ground arith)))
  ]

  pub length-insert :
      (k : ℕ) (v : V) (m : List (ℕ × V)) → get k m ≡ none → length (insert k v m) ≡ suc (length m)
  unfolding insert
  length-insert k v m h = ap suc (ap length (remove-absent k m h))

  -- What a hit in a changed map says about the old one.
  pub get-remove-some :
      (k j : ℕ) (v : V) (m : List (ℕ × V))
      → get j (remove k m) ≡ some v
      → (get j m ≡ some v) × (j ≢ k)
  get-remove-some k j v m h = ground (arith, get-remove k j m)

  pub get-insert-some :
      (k j : ℕ) (v w : V) (m : List (ℕ × V))
      → get j (insert k v m) ≡ some w
      → ((j ≡ k) × (v ≡ w)) ⊎ ((j ≢ k) × (get j m ≡ some w))
  get-insert-some k j v w m h = ground (arith, get-insert k j v m)

  pub get-remove-none : (k j : ℕ) (m : List (ℕ × V)) → get j m ≡ none → get j (remove k m) ≡ none
  get-remove-none k j m h = ground (arith, get-remove k j m)

  -- A write through a reference to a value of the map.
  unfoldable pub modify : ℕ → (V → V) → List (ℕ × V) → List (ℕ × V)
  modify k f [] = []
  modify k f ((j, v) ∷ m) = if j == k then (j, f v) ∷ modify k f m else (j, v) ∷ modify k f m

  pub get-modify :
      (k j : ℕ) (f : V → V) (m : List (ℕ × V))
      → get j (modify k f m) ≡ (if j == k then Option.map f (get j m) else get j m)
  unfolding get modify
  get-modify k j f [] = ground arith
  get-modify k j f ((i, v) ∷ m) = ground (arith, get-modify k j f m)
