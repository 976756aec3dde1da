-- ===== src/Wal/Compact/Safe.antt =====
-- What `compact_below` of wal/src/lib.rs keeps.
use blipmq.Prelude.{
  ℕ, ◌+◌, ◌≤◌, ◌<◌, ◌≡◌, ◌⊎◌, inl, inr, refl, ap, subst, ◌∙◌, arith, true, false, Bool-cases, not,
  ◌&&◌, ◌||◌, ◌==◌, List, [], ◌∷◌, ◌++◌, Option, none, some, is_some, Outcome, ok, err, panic,
}
use blipmq.Core.LogError.{LogError}
use blipmq.Core.TagMap.{get, Distinct, get-insert, insert-Distinct}
use blipmq.Wal.Record.{RecordLocation}
use blipmq.Wal.Compact.{
  Index, Removal, removed, not_found, failed, greater, raise_max, max_id_per_segment,
  below_threshold, stragglers, place, sort_dedup, contains, remove_seq, delete_all, retain,
  to_delete, drop_entries, compact_below,
}

-- The segment has a greatest id, and it is at least this one.
abbrev Holds : ℕ → ℕ → List (ℕ × ℕ) → Type 0
Holds seq id m = (max_id : ℕ) × (get seq m ≡ some max_id) × (id ≤ max_id)

greater_le :
    (id : ℕ) (o : Option ℕ) → (id ≤ greater id o) × ((old : ℕ) → o ≡ some old → old ≤ greater id o)
unfolding greater
greater_le id none = (omega arith, λ old h. absurd (ground arith))
greater_le id (some x) = (ground arith, λ old h. ground arith)

raise_max-Holds :
    (seq id : ℕ) (m : List (ℕ × ℕ))
    → Holds seq id (raise_max seq id m)
      × ((s old : ℕ) → Holds s old m → Holds s old (raise_max seq id m))
unfolding raise_max greater
raise_max-Holds seq id m =
    let new : ℕ = greater id (get seq m) in
    let at : get seq (raise_max seq id m) ≡ some new = ground (arith, get-insert seq seq new m) in
    (
      (new, at, (greater_le id (get seq m)).0),
      λ s old (max_id, e, le). elim (Bool-cases (seq == s)) [
        | inl same ↦
            let k : seq ≡ s = ground arith in
            (
              new,
              subst (λ j. get j (raise_max seq id m) ≡ some new) k at,
              omega (arith, le, (greater_le id (get seq m)).1 max_id (ap (λ j. get j m) k ∙ e)),
            )
        | inr other ↦ (max_id, ground (arith, get-insert seq s new m), le)
      ],
    )

raise_max-Distinct : (seq id : ℕ) (m : List (ℕ × ℕ)) → Distinct m → Distinct (raise_max seq id m)
unfolding raise_max
raise_max-Distinct seq id m d = insert-Distinct seq _ m d

max_id_per_segment-Holds :
    (index : Index) (m : List (ℕ × ℕ)) (s id : ℕ)
    → Holds s id m
    → Holds s id (max_id_per_segment index m)
unfolding max_id_per_segment
max_id_per_segment-Holds [] m s id h = h
max_id_per_segment-Holds ((i, loc) ∷ index) m s id h =
    max_id_per_segment-Holds index (raise_max loc.segment_seq i m) s id
      ((raise_max-Holds loc.segment_seq i m).1 s id h)

-- Every record of the index counts for its segment.
index-Holds :
    (index : Index) (m : List (ℕ × ℕ)) (id : ℕ) (loc : RecordLocation)
    → get id index ≡ some loc
    → Holds loc.segment_seq id (max_id_per_segment index m)
unfolding max_id_per_segment get
index-Holds [] m id loc h = absurd (ground arith)
index-Holds ((i, l) ∷ index) m id loc h = elim (Bool-cases (i == id)) [
  | inl same ↦
      let e : l ≡ loc = ground arith in
      let k : i ≡ id = ground arith in
      max_id_per_segment-Holds index (raise_max l.segment_seq i m) loc.segment_seq id (
        subst (λ (x : RecordLocation). Holds x.segment_seq id (raise_max l.segment_seq i m)) e
          (subst (λ j. Holds l.segment_seq j (raise_max l.segment_seq i m)) k
            (raise_max-Holds l.segment_seq i m).0))
  | inr other ↦ index-Holds index (raise_max l.segment_seq i m) id loc (ground arith)
]

max_id_per_segment-Distinct :
    (index : Index) (m : List (ℕ × ℕ)) → Distinct m → Distinct (max_id_per_segment index m)
unfolding max_id_per_segment
max_id_per_segment-Distinct [] m d = d
max_id_per_segment-Distinct ((i, loc) ∷ index) m d =
    max_id_per_segment-Distinct index (raise_max loc.segment_seq i m)
      (raise_max-Distinct loc.segment_seq i m d)

module _ (active threshold : ℕ) where
  below_threshold-active :
      (m : List (ℕ × ℕ)) → contains active (below_threshold active threshold m) ≡ false
  unfolding below_threshold contains
  below_threshold-active [] = refl
  below_threshold-active ((s, x) ∷ m) = ground (arith, below_threshold-active m)

  below_threshold-none :
      (m : List (ℕ × ℕ)) (s : ℕ)
      → get s m ≡ none
      → contains s (below_threshold active threshold m) ≡ false
  unfolding below_threshold contains get
  below_threshold-none [] s h = refl
  below_threshold-none ((j, x) ∷ m) s h = ground (arith, below_threshold-none m s)

  below_threshold-some :
      (m : List (ℕ × ℕ)) (s max_id : ℕ)
      → Distinct m
      → get s m ≡ some max_id
      → threshold < max_id
      → contains s (below_threshold active threshold m) ≡ false
  unfolding below_threshold contains get
  below_threshold-some [] s max_id d h large = refl
  below_threshold-some ((j, x) ∷ m) s max_id d h large =
      ground (arith, below_threshold-none m s, below_threshold-some m s max_id d.1, d.0)

  stragglers-active :
      (m : List (ℕ × ℕ)) (seqs : List ℕ) → contains active (stragglers active m seqs) ≡ false
  unfolding stragglers contains
  stragglers-active m [] = refl
  stragglers-active m (s ∷ seqs) = ground (arith, stragglers-active m seqs)

  stragglers-some :
      (m : List (ℕ × ℕ)) (seqs : List ℕ) (s max_id : ℕ)
      → get s m ≡ some max_id
      → contains s (stragglers active m seqs) ≡ false
  unfolding stragglers contains
  stragglers-some m [] s max_id h = refl
  stragglers-some m (x ∷ seqs) s max_id h = elim (Bool-cases (x == s)) [
    | inl same ↦
        let e : x ≡ s = ground arith in
        let known : is_some (get x m) ≡ true = rw (e, h) refl in
        ground (arith, known, stragglers-some m seqs s max_id h)
    | inr other ↦ ground (arith, stragglers-some m seqs s max_id h)
  ]

contains-append :
    (s : ℕ) (xs ys : List ℕ) → contains s (xs ++ ys) ≡ (contains s xs || contains s ys)
unfolding contains
contains-append s [] ys = refl
contains-append s (x ∷ xs) ys = ground (arith, contains-append s xs ys)

contains-place : (s x : ℕ) (xs : List ℕ) → contains s (place x xs) ≡ (x == s || contains s xs)
unfolding contains place
contains-place s x [] = ground arith
contains-place s x (y ∷ ys) = ground (arith, contains-place s x ys)

contains-sort_dedup : (s : ℕ) (xs : List ℕ) → contains s (sort_dedup xs) ≡ contains s xs
unfolding contains sort_dedup
contains-sort_dedup s [] = refl
contains-sort_dedup s (x ∷ xs) =
    ground (arith, contains-place s x (sort_dedup xs), contains-sort_dedup s xs)

contains-remove_seq :
    (s x : ℕ) (xs : List ℕ) → contains s (remove_seq x xs) ≡ (not (x == s) && contains s xs)
unfolding contains remove_seq
contains-remove_seq s x [] = ground arith
contains-remove_seq s x (y ∷ ys) = ground (arith, contains-remove_seq s x ys)

Removal-cases : (r : Removal) → (r ≡ removed) ⊎ ((r ≡ not_found) ⊎ (r ≡ failed))
Removal-cases removed = inl refl
Removal-cases not_found = inr (inl refl)
Removal-cases failed = inr (inr refl)

delete_all-kept :
    (remove_file : ℕ → Removal) (seqs : List ℕ) (deleted : ℕ) (dir : List ℕ) (s : ℕ)
    → contains s seqs ≡ false
    → contains s (delete_all remove_file seqs deleted dir).0 ≡ contains s dir
unfolding contains delete_all
delete_all-kept remove_file [] deleted dir s h = refl
delete_all-kept remove_file (x ∷ seqs) deleted dir s h = elim (Removal-cases (remove_file x)) [
  | inl gone ↦
      rw (gone, delete_all)
        (ground (
          arith,
          delete_all-kept remove_file seqs (deleted + 1) (remove_seq x dir) s,
          contains-remove_seq s x dir,
        ))
  | inr (inl absent) ↦
      rw (absent, delete_all) (delete_all-kept remove_file seqs deleted dir s (ground arith))
  | inr (inr stopped) ↦ rw (stopped, delete_all) refl
]

retain-kept :
    (seqs : List ℕ) (index : Index) (id : ℕ) (loc : RecordLocation)
    → get id index ≡ some loc
    → contains loc.segment_seq seqs ≡ false
    → get id (retain seqs index) ≡ some loc
unfolding retain get
retain-kept seqs [] id loc h c = h
retain-kept seqs ((i, l) ∷ index) id loc h c = elim (Bool-cases (i == id)) [
  | inl same ↦
      let e : l ≡ loc = ground arith in
      let k : contains l.segment_seq seqs ≡ false = rw e c in ground (arith, k)
  | inr other ↦ ground (arith, retain-kept seqs index id loc)
]

drop_entries-kept :
    (seqs : List ℕ) (index : Index) (answer : Outcome LogError ℕ) (id : ℕ) (loc : RecordLocation)
    → get id index ≡ some loc
    → contains loc.segment_seq seqs ≡ false
    → get id (drop_entries seqs index answer) ≡ some loc
unfolding drop_entries
drop_entries-kept seqs index (ok n) id loc h c = ground (arith, retain-kept seqs index id loc h c)
drop_entries-kept seqs index (err e) id loc h c = h
drop_entries-kept seqs index panic id loc h c = h

to_delete-kept :
    (active threshold : ℕ) (index : Index) (dir : List ℕ) (id : ℕ) (loc : RecordLocation)
    → get id index ≡ some loc
    → (threshold < id) ⊎ (loc.segment_seq ≡ active)
    → contains loc.segment_seq (to_delete active threshold index dir) ≡ false
unfolding to_delete
to_delete-kept active threshold index dir id loc h why =
    let m : List (ℕ × ℕ) = max_id_per_segment index [] in
    let s : ℕ = loc.segment_seq in
    let (max_id, e, le) = index-Holds index [] id loc h in
    let by_segment =
      contains-append s (below_threshold active threshold m) (stragglers active m dir) in
    contains-sort_dedup s (below_threshold active threshold m ++ stragglers active m dir)
    ∙ elim why [
      | inl large ↦ ground (
        arith,
        by_segment,
        below_threshold-some active threshold m s max_id (max_id_per_segment-Distinct index [] tt) e
            (omega (arith, le)),
        stragglers-some active threshold m dir s max_id e,
      )
      | inr writing ↦ ground (
        arith,
        by_segment,
        writing,
        below_threshold-active active threshold m,
        stragglers-active active threshold m dir,
      )
    ]

-- Compaction keeps every record above the threshold, and every record of the segment that is being
-- written: the index still has its place, and its segment is in the directory if it was, whatever the
-- file system answers and wherever an error ends the deleting.
pub compact_below-kept :
    (remove_file : ℕ → Removal) (list_fails : Option LogError) (active threshold : ℕ)
    (index : Index) (dir : List ℕ) (id : ℕ) (loc : RecordLocation)
    → get id index ≡ some loc
    → (threshold < id) ⊎ (loc.segment_seq ≡ active)
    → let (index', dir', _) = compact_below remove_file list_fails active threshold index dir in
      (get id index' ≡ some loc) × (contains loc.segment_seq dir' ≡ contains loc.segment_seq dir)
unfolding compact_below
compact_below-kept remove_file (some e) active threshold index dir id loc h why = (h, refl)
compact_below-kept remove_file none active threshold index dir id loc h why =
    let seqs : List ℕ = to_delete active threshold index dir in
    let c = to_delete-kept active threshold index dir id loc h why in
    (
      drop_entries-kept seqs index (delete_all remove_file seqs 0 dir).1 id loc h c,
      delete_all-kept remove_file seqs 0 dir loc.segment_seq c,
    )
