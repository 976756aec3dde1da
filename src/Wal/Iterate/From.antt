-- ===== src/Wal/Iterate/From.antt =====
-- `iterate_from` of wal/src/lib.rs returns, and gives no record before the id.
use blipmq.Prelude.{
  ℕ, zero, suc, ◌+◌, ◌≤◌, ◌<◌, ◌^◌, ◌≡◌, inl, inr, refl, ap, subst, ◌∙◌, if-holds, Returns, All-map,
  arith, ltb, leb, All, All-append, List, [], ◌∷◌, length, drop, length-drop, Option, none, some,
  Option-cases, if◌then◌else◌, Outcome, ok, err, panic, ◌>>=◌,
}
use blipmq.Wire.Buf.{Bytes}
use blipmq.Wire.Crc32.{Crc32}
use blipmq.Core.LogError.{LogError, corruption, text}
use blipmq.Wal.Record.{RecordLocation, WalRecord, WalScan, read_next_record_with_offset}
use blipmq.Wal.Record.Total.{read-Returns, read-shrinks}
use blipmq.Wal.Compact.{Index}
use blipmq.Wal.Iterate.{
  nearer, first_match, keep_from, read_records, start_offset_for_segment, read_segments,
  iterate_from,
}

-- The call returns, and what it returns are records from the id on.
abbrev pub From : ℕ → Outcome LogError (List WalRecord) → Type 0
From id (ok records) = All (λ (r : WalRecord). id ≤ r.id) records
From id (err e) = Unit
From id panic = ⊥

From-bind :
    {A : Type 0} (id : ℕ) (m : Outcome LogError A) (f : A → Outcome LogError (List WalRecord))
    → Returns m
    → ((a : A) → m ≡ ok a → From id (f a))
    → From id (m >>= f)
From-bind id (ok a) f h k = k a refl
From-bind id (err e) f h k = tt
From-bind id panic f h k = h

From-then :
    (id : ℕ) (m : Outcome LogError (List WalRecord))
    (f : List WalRecord → Outcome LogError (List WalRecord))
    → From id m
    → ((rs : List WalRecord) → All (λ (r : WalRecord). id ≤ r.id) rs → From id (f rs))
    → From id (m >>= f)
From-then id (ok rs) f h k = k rs h
From-then id (err e) f h k = tt
From-then id panic f h k = h

From-weaken :
    (low id : ℕ) (m : Outcome LogError (List WalRecord)) → low ≤ id → From id m → From low m
From-weaken low id (ok rs) le h =
    All-map (λ (r : WalRecord). id ≤ r.id) (λ (r : WalRecord). low ≤ r.id) rs
      (λ r k. omega (arith, le, k)) h
From-weaken low id (err e) le h = tt
From-weaken low id panic le h = h

keep_from-All :
    (min_id : ℕ) (r : WalScan) (rs : List WalRecord)
    → All (λ (r : WalRecord). min_id ≤ r.id) rs
    → All (λ (r : WalRecord). min_id ≤ r.id) (keep_from min_id r rs)
unfolding keep_from
keep_from-All min_id r rs h =
    if-holds (All (λ (r : WalRecord). min_id ≤ r.id)) (leb min_id r.id) _ rs
      (λ e. (ground arith, h)) (λ e. h)

module _ ⦃h : Crc32⦄ where
  -- What follows a read.
  abbrev go_on : ℕ → ℕ → ℕ → Option WalScan → Outcome LogError (List WalRecord)
  go_on fuel offset min_id found = elim found [
    | none ↦ ok []
    | some r ↦
        if ltb (offset + r.total_len) (2 ^ 64)
        then (do
          records ← read_records fuel r.rest (offset + r.total_len) min_id
          ok (keep_from min_id r records))
        else err (corruption (text "offset overflow"))
  ]

  go_on-From :
      (fuel offset min_id : ℕ) (found : Option WalScan)
      → ((r : WalScan)
          → found ≡ some r
          → From min_id (read_records fuel r.rest (offset + r.total_len) min_id))
      → From min_id (go_on fuel offset min_id found)
  go_on-From fuel offset min_id none k = tt
  go_on-From fuel offset min_id (some r) k =
      if-holds (From min_id) (ltb (offset + r.total_len) (2 ^ 64)) _ _
        (λ _.
          From-then min_id (read_records fuel r.rest (offset + r.total_len) min_id) _ (k r refl)
            (λ rs all. keep_from-All min_id r rs all))
        (λ _. tt)

  read_records-From :
      (fuel : ℕ) (file : Bytes) (offset min_id : ℕ)
      → length file < fuel
      → From min_id (read_records fuel file offset min_id)
  unfolding read_records
  read_records-From zero file offset min_id lt = absurd (omega arith)
  read_records-From (suc fuel) file offset min_id lt =
      From-bind min_id (read_next_record_with_offset file offset) (go_on fuel offset min_id)
        (read-Returns file offset)
        (λ found e. go_on-From fuel offset min_id found (λ r is.
          read_records-From fuel r.rest (offset + r.total_len) min_id
            (omega (arith, lt, read-shrinks file offset r (e ∙ ap ok is)))))

  read_segments-From :
      (start_seq start_offset min_id : ℕ) (files : List (ℕ × Bytes))
      → From min_id (read_segments start_seq start_offset min_id files)
  unfolding read_segments
  read_segments-From start_seq start_offset min_id [] = tt
  read_segments-From start_seq start_offset min_id ((seq, file) ∷ files) =
      let offset : ℕ = start_offset_for_segment seq start_seq start_offset in
      let later = read_segments-From start_seq start_offset min_id files in
      if-holds (From min_id) (ltb seq start_seq) _ _ (λ _. later)
        (λ _.
          From-then min_id (read_records (suc (length file)) (drop offset file) offset min_id) _
            (read_records-From (suc (length file)) (drop offset file) offset min_id
              (omega (arith, length-drop offset file)))
            (λ here h.
              From-then min_id (read_segments start_seq start_offset min_id files) _ later
                (λ rest r. All-append (λ (r : WalRecord). min_id ≤ r.id) here rest h r)))

abbrev AtLeast : ℕ → Option (ℕ × RecordLocation) → Type 0
AtLeast low none = Unit
AtLeast low (some (id, loc)) = low ≤ id

nearer-AtLeast :
    (low id : ℕ) (loc : RecordLocation) (best : Option (ℕ × RecordLocation))
    → low ≤ id
    → AtLeast low best
    → AtLeast low (nearer id loc best)
unfolding nearer
nearer-AtLeast low id loc none le h = le
nearer-AtLeast low id loc (some (best, best_loc)) le h =
    if-holds (AtLeast low) (ltb id best) _ _ (λ _. le) (λ _. h)

first_match-AtLeast :
    (low : ℕ) (index : Index) (best : Option (ℕ × RecordLocation))
    → AtLeast low best
    → AtLeast low (first_match low index best)
unfolding first_match
first_match-AtLeast low [] best h = h
first_match-AtLeast low ((id, loc) ∷ index) best h = first_match-AtLeast low index _ (
    if-holds (AtLeast low) (leb low id) _ _ (λ e. nearer-AtLeast low id loc best (ground arith) h)
      (λ _. h))

-- `iterate_from` returns, on any index and any bytes in the segments, with an error or with records
-- that all have the id or a later one: the rounds suffice.
pub iterate_from-From :
    ⦃h : Crc32⦄ (index : Index) (files : List (ℕ × Bytes)) (from_id : ℕ)
    → From from_id (iterate_from index files from_id)
unfolding iterate_from
iterate_from-From index files from_id = elim (Option-cases (first_match from_id index none)) [
  | inl nothing ↦ rw (nothing, iterate_from) tt
  | inr ((min_id, loc), e) ↦
      rw (e, iterate_from)
        (From-weaken from_id min_id _
          (subst (AtLeast from_id) e (first_match-AtLeast from_id index none tt))
          (read_segments-From loc.segment_seq loc.offset_in_segment min_id files))
]
