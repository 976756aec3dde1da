-- ===== src/Wal/Open/Indexing.antt =====
-- What the index of wal/src/lib.rs has, and the next id, as `open_with_config` reads the records of one
-- segment after another.
use native.Mathlib.Nat.{mod-eq_of_lt}
use blipmq.Prelude.{
  ℕ, ◌+◌, ◌%◌, ◌^◌, ◌≤◌, ◌<◌, ◌≢◌, arith, leb, inl, inr, List, [], ◌∷◌, All, map, length, none,
  if◌then◌else◌,
}
use blipmq.Core.TagMap.{get, insert, get-insert}
use blipmq.Wal.Record.{WalWriteRequest, RecordLocation, frame_batch}
use blipmq.Wal.Record.Scan.{found_at}
use blipmq.Wal.Compact.{Index}
use blipmq.Wal.Writer.Layout.{HasId}
use blipmq.Wal.Open.{index_records}

-- The id has a place in the index, and lies below the next one.
abbrev pub Known : Index → ℕ → ℕ → Type 0
Known index next_id id = (get id index ≢ none) × (id < next_id)

-- The ids of records that were found do not wrap.
abbrev Ids : List (ℕ × ℕ) → Type 0
Ids [] = Unit
Ids ((id, offset) ∷ records) = (id + 1 < 2 ^ 64) × Ids records

abbrev pub Low : WalWriteRequest → Type 0
Low r = r.id + 1 < 2 ^ 64

pub frame_batch-Ids :
    (seq offset : ℕ) (rs : List WalWriteRequest)
    → All Low rs
    → Ids (map found_at (frame_batch seq offset rs).0)
unfolding frame_batch
frame_batch-Ids seq offset [] low = tt
frame_batch-Ids seq offset (r ∷ rs) low =
    (low.0, frame_batch-Ids seq (offset + (16 + length r.payload)) rs low.1)

raise :
    (next_id id : ℕ)
    → id + 1 < 2 ^ 64
    → (next_id ≤ (if leb next_id id then (id + 1) % 2 ^ 64 else next_id))
      × (id < (if leb next_id id then (id + 1) % 2 ^ 64 else next_id))
raise next_id id small = ground (arith, mod-eq_of_lt small)

-- What was known stays known.
pub index_records-Known :
    (seq : ℕ) (records : List (ℕ × ℕ)) (index : Index) (next_id id : ℕ)
    → Ids records
    → Known index next_id id
    → Known
        (index_records seq records index next_id).0
        (index_records seq records index next_id).1
        id
unfolding index_records
index_records-Known seq [] index next_id id small k = k
index_records-Known seq ((j, offset) ∷ records) index next_id id small k =
    let loc : RecordLocation = record { segment_seq = seq; offset_in_segment = offset } in
    index_records-Known seq records (insert j loc index) _ id small.1 (
      λ e. k.0 (ground (arith, e, get-insert j id loc index)),
      omega (arith, k.1, (raise next_id j small.0).0),
    )

-- The records of the segment are known.
pub index_records-finds :
    (seq offset : ℕ) (rs : List WalWriteRequest) (index : Index) (next_id id : ℕ)
    → All Low rs
    → HasId id rs
    → let (index', next_id') =
        index_records seq (map found_at (frame_batch seq offset rs).0) index next_id in
      Known index' next_id' id
unfolding index_records frame_batch
index_records-finds seq offset [] index next_id id low has = elim has [ ]
index_records-finds seq offset (r ∷ rs) index next_id id low (inl e) =
    let loc : RecordLocation = record { segment_seq = seq; offset_in_segment = offset } in
    let o : ℕ = offset + (16 + length r.payload) in
    index_records-Known seq _ (insert r.id loc index) _ id (frame_batch-Ids seq o rs low.1) (
      λ none_there. ground (arith, e, none_there, get-insert r.id id loc index),
      omega (arith, e, (raise next_id r.id low.0).1),
    )
index_records-finds seq offset (r ∷ rs) index next_id id low (inr has) =
    index_records-finds seq (offset + (16 + length r.payload)) rs _ _ id low.1 has
