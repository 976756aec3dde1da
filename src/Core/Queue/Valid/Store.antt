-- ===== src/Core/Queue/Valid/Store.antt =====
-- What holds of the pending tags and of the two maps of a queue, and how each change of them keeps
-- it.
use blipmq.Prelude.{
  ℕ, ◌+◌, ◌≤◌, ◌<◌, ◌≡◌, ◌≢◌, refl, sym, ◌∙◌, ap, arith, Bool, true, false, ◌||◌, none, some, List,
  [], ◌∷◌, ◌++◌, ◌==◌, inl, inr, ◌⊎◌, Bool-cases, Option-cases,
}
use blipmq.Core.TagMap.{
  get, insert, remove, Distinct, remove-Distinct, insert-Distinct, get-remove, get-insert,
  get-remove-some, get-insert-some, get-remove-none,
}
use blipmq.Core.Queue.{QueueEntry, Entries}

abbrev pub contains : ℕ → List ℕ → Bool
contains k [] = false
contains k (j ∷ js) = j == k || contains k js

abbrev pub Nodup : List ℕ → Type 0
Nodup [] = Unit
Nodup (k ∷ ks) = (contains k ks ≡ false) × Nodup ks

abbrev pub Tagged : Entries → Type 0
Tagged m = (k : ℕ) (x : QueueEntry) → get k m ≡ some x → x.tag ≡ k

abbrev pub Below : ℕ → Entries → Type 0
Below bound m = (k : ℕ) (x : QueueEntry) → get k m ≡ some x → k < bound

-- `bound` is the next tag. An entry stands in one of the maps, under its tag. The tag of a waiting
-- entry is pending, that of an entry in flight is not.
pub record IsStore (bound : ℕ) (pending : List ℕ) (entries inflight : Entries) : Type 0 where
  pub entries_distinct : Distinct entries
  pub inflight_distinct : Distinct inflight
  pub entries_tagged : Tagged entries
  pub inflight_tagged : Tagged inflight
  pub entries_below : Below bound entries
  pub inflight_below : Below bound inflight
  pub pending_nodup : Nodup pending
  pub pending_below : (k : ℕ) → contains k pending ≡ true → k < bound
  pub listed : (k : ℕ) (x : QueueEntry) → get k entries ≡ some x → contains k pending ≡ true
  pub apart : (k : ℕ) (x : QueueEntry) → get k entries ≡ some x → get k inflight ≡ none
  pub unlisted : (k : ℕ) (x : QueueEntry) → get k inflight ≡ some x → contains k pending ≡ false

contains-snoc : (k j : ℕ) (ks : List ℕ) → contains k (ks ++ (j ∷ [])) ≡ (contains k ks || j == k)
contains-snoc k j [] = ground arith
contains-snoc k j (i ∷ ks) = ground (arith, contains-snoc k j ks)

Nodup-snoc : (j : ℕ) (ks : List ℕ) → Nodup ks → contains j ks ≡ false → Nodup (ks ++ (j ∷ []))
Nodup-snoc j [] n h = (refl, tt)
Nodup-snoc j (i ∷ ks) n h = ground (arith, contains-snoc i j ks, Nodup-snoc j ks n.1)

Tagged-remove : (k : ℕ) (m : Entries) → Tagged m → Tagged (remove k m)
Tagged-remove k m t j x h = t j x (get-remove-some k j x m h).0

Below-remove : (k bound : ℕ) (m : Entries) → Below bound m → Below bound (remove k m)
Below-remove k bound m b j x h = b j x (get-remove-some k j x m h).0

Tagged-insert :
    (k : ℕ) (y : QueueEntry) (m : Entries) → y.tag ≡ k → Tagged m → Tagged (insert k y m)
Tagged-insert k y m e t j x h = elim (get-insert-some k j y x m h) [
  | inl (same, new) ↦ ap (λ (z : QueueEntry). z.tag) (sym new) ∙ e ∙ sym same
  | inr (other, old) ↦ t j x old
]

Below-insert :
    (k b c : ℕ) (y : QueueEntry) (m : Entries) → k < c → b ≤ c → Below b m → Below c (insert k y m)
Below-insert k b c y m hk hb below j x h = elim (get-insert-some k j y x m h) [
  | inl (same, new) ↦ omega arith
  | inr (other, old) ↦ omega (arith, below j x old)
]

contains-snoc_old :
    (k j : ℕ) (ks : List ℕ) → contains k ks ≡ true → contains k (ks ++ (j ∷ [])) ≡ true
contains-snoc_old k j ks h = ground (arith, contains-snoc k j ks)

contains-snoc_new : (j : ℕ) (ks : List ℕ) → contains j (ks ++ (j ∷ [])) ≡ true
contains-snoc_new j ks = ground (arith, contains-snoc j j ks)

contains-snoc_cases :
    (k j : ℕ) (ks : List ℕ) → contains k (ks ++ (j ∷ [])) ≡ true → (contains k ks ≡ true) ⊎ (k ≡ j)
contains-snoc_cases k j ks h = ground (arith, contains-snoc k j ks)

contains-snoc_false :
    (k j : ℕ) (ks : List ℕ) → contains k ks ≡ false → k ≢ j → contains k (ks ++ (j ∷ [])) ≡ false
contains-snoc_false k j ks h n = ground (arith, contains-snoc k j ks)

module _ {bound : ℕ} {pending : List ℕ} {entries inflight : Entries} where
  -- A waiting entry is dropped; its tag stays behind.
  pub IsStore-drop :
      (k : ℕ)
      → IsStore bound pending entries inflight
      → IsStore bound pending (remove k entries) inflight
  IsStore-drop k s = record {
    entries_distinct = remove-Distinct k entries s.entries_distinct;
    inflight_distinct = s.inflight_distinct;
    entries_tagged = λ j x h. s.entries_tagged j x (get-remove-some k j x entries h).0;
    inflight_tagged = s.inflight_tagged;
    entries_below = λ j x h. s.entries_below j x (get-remove-some k j x entries h).0;
    inflight_below = s.inflight_below;
    pending_nodup = s.pending_nodup;
    pending_below = s.pending_below;
    listed = λ j x h. s.listed j x (get-remove-some k j x entries h).0;
    apart = λ j x h. s.apart j x (get-remove-some k j x entries h).0;
    unlisted = s.unlisted;
  }

  -- An entry in flight is dropped.
  pub IsStore-drop_inflight :
      (k : ℕ)
      → IsStore bound pending entries inflight
      → IsStore bound pending entries (remove k inflight)
  IsStore-drop_inflight k s = record {
    entries_distinct = s.entries_distinct;
    inflight_distinct = remove-Distinct k inflight s.inflight_distinct;
    entries_tagged = s.entries_tagged;
    inflight_tagged = λ j x h. s.inflight_tagged j x (get-remove-some k j x inflight h).0;
    entries_below = s.entries_below;
    inflight_below = λ j x h. s.inflight_below j x (get-remove-some k j x inflight h).0;
    pending_nodup = s.pending_nodup;
    pending_below = s.pending_below;
    listed = s.listed;
    apart = λ j x h. get-remove-none k j inflight (s.apart j x h);
    unlisted = λ j x h. s.unlisted j x (get-remove-some k j x inflight h).0;
  }

  -- A new tag is given out: a new entry waits at the end.
  pub IsStore-enqueue :
      (x : QueueEntry)
      → x.tag ≡ bound
      → IsStore bound pending entries inflight
      → IsStore (bound + 1) (pending ++ (x.tag ∷ [])) (insert x.tag x entries) inflight
  IsStore-enqueue x e s = record {
    entries_distinct = insert-Distinct x.tag x entries s.entries_distinct;
    inflight_distinct = s.inflight_distinct;
    entries_tagged = Tagged-insert x.tag x entries refl s.entries_tagged;
    inflight_tagged = s.inflight_tagged;
    entries_below =
        Below-insert x.tag bound (bound + 1) x entries (omega arith) (omega arith) s.entries_below;
    inflight_below = λ j y h. omega (arith, s.inflight_below j y h);
    pending_nodup = Nodup-snoc x.tag pending s.pending_nodup fresh;
    pending_below = λ j h. elim (contains-snoc_cases j x.tag pending h) [
      | inl old ↦ omega (arith, s.pending_below j old)
      | inr new ↦ omega arith
    ];
    listed = λ j y h. elim (get-insert-some x.tag j x y entries h) [
      | inl (same, new) ↦ rw same (contains-snoc_new x.tag pending)
      | inr (other, old) ↦ contains-snoc_old j x.tag pending (s.listed j y old)
    ];
    apart = λ j y h. elim (get-insert-some x.tag j x y entries h) [
      | inl (same, new) ↦ rw same not_inflight
      | inr (other, old) ↦ s.apart j y old
    ];
    unlisted = λ j y h.
        contains-snoc_false j x.tag pending (s.unlisted j y h)
          (omega (arith, s.inflight_below j y h));
  }
    where
      fresh : contains x.tag pending ≡ false
      fresh = elim (Bool-cases (contains x.tag pending)) [
        | inl in_use ↦ absurd (omega (arith, s.pending_below x.tag in_use))
        | inr free ↦ free
      ]

      not_inflight : get x.tag inflight ≡ none
      not_inflight = elim (Option-cases (get x.tag inflight)) [
        | inl free ↦ free
        | inr (y, in_use) ↦ absurd (omega (arith, s.inflight_below x.tag y in_use))
      ]

  -- An entry in flight waits again.
  pub IsStore-requeue :
      (k : ℕ) (x y : QueueEntry)
      → get k inflight ≡ some x
      → y.tag ≡ k
      → IsStore bound pending entries inflight
      → IsStore bound (pending ++ (k ∷ [])) (insert k y entries) (remove k inflight)
  IsStore-requeue k x y h e s = record {
    entries_distinct = insert-Distinct k y entries s.entries_distinct;
    inflight_distinct = remove-Distinct k inflight s.inflight_distinct;
    entries_tagged = Tagged-insert k y entries e s.entries_tagged;
    inflight_tagged = Tagged-remove k inflight s.inflight_tagged;
    entries_below =
        Below-insert k bound bound y entries (s.inflight_below k x h) (omega arith) s.entries_below;
    inflight_below = Below-remove k bound inflight s.inflight_below;
    pending_nodup = Nodup-snoc k pending s.pending_nodup (s.unlisted k x h);
    pending_below = λ j l. elim (contains-snoc_cases j k pending l) [
      | inl old ↦ s.pending_below j old
      | inr new ↦ rw new (s.inflight_below k x h)
    ];
    listed = λ j z g. elim (get-insert-some k j y z entries g) [
      | inl (same, new) ↦ rw same (contains-snoc_new k pending)
      | inr (other, old) ↦ contains-snoc_old j k pending (s.listed j z old)
    ];
    apart = λ j z g. elim (get-insert-some k j y z entries g) [
      | inl (same, new) ↦ ground (arith, get-remove k j inflight)
      | inr (other, old) ↦ get-remove-none k j inflight (s.apart j z old)
    ];
    unlisted = λ j z g.
        let (old, other) = get-remove-some k j z inflight g in
        contains-snoc_false j k pending (s.unlisted j z old) other;
  }

module _ {bound k : ℕ} {pending : List ℕ} {entries inflight : Entries} where
  -- The first tag is popped, and what waits under it is taken out.
  pub IsStore-pop :
      IsStore bound (k ∷ pending) entries inflight
      → IsStore bound pending (remove k entries) inflight
  IsStore-pop s = record {
    entries_distinct = remove-Distinct k entries s.entries_distinct;
    inflight_distinct = s.inflight_distinct;
    entries_tagged = Tagged-remove k entries s.entries_tagged;
    inflight_tagged = s.inflight_tagged;
    entries_below = Below-remove k bound entries s.entries_below;
    inflight_below = s.inflight_below;
    pending_nodup = s.pending_nodup.1;
    pending_below = λ j l. s.pending_below j (ground (arith, l));
    listed = λ j z g.
        let (old, other) = get-remove-some k j z entries g in
        ground (arith, other, s.listed j z old);
    apart = λ j z g. s.apart j z (get-remove-some k j z entries g).0;
    unlisted = λ j z g. ground (arith, s.unlisted j z g);
  }

  -- It is put in flight.
  pub IsStore-deliver :
      (x y : QueueEntry)
      → get k entries ≡ some x
      → y.tag ≡ k
      → IsStore bound (k ∷ pending) entries inflight
      → IsStore bound pending (remove k entries) (insert k y inflight)
  IsStore-deliver x y h e s =
      let p : IsStore bound pending (remove k entries) inflight = IsStore-pop s in
      record {
        entries_distinct = p.entries_distinct;
        inflight_distinct = insert-Distinct k y inflight s.inflight_distinct;
        entries_tagged = p.entries_tagged;
        inflight_tagged = Tagged-insert k y inflight e s.inflight_tagged;
        entries_below = p.entries_below;
        inflight_below =
            Below-insert k bound bound y inflight (s.entries_below k x h) (omega arith)
              s.inflight_below;
        pending_nodup = p.pending_nodup;
        pending_below = p.pending_below;
        listed = p.listed;
        apart = λ j z g.
            let (old, other) = get-remove-some k j z entries g in
            ground (arith, other, get-insert k j y inflight, s.apart j z old);
        unlisted = λ j z g. elim (get-insert-some k j y z inflight g) [
          | inl (same, new) ↦ rw same s.pending_nodup.0
          | inr (other, old) ↦ p.unlisted j z old
        ];
      }
