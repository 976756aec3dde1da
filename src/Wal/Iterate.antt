-- ===== src/Wal/Iterate.antt =====
-- wal/src/lib.rs: `iterate_from` of `WriteAheadLog`, which reads the records from an id on. `files`
-- are the segments in the order of their numbers, each with its bytes. The loop over a segment runs
-- on fuel, one more than the file has bytes: each round takes at least the header of a record.
pub mod From
use blipmq.Prelude.{
  ℕ, zero, suc, ◌+◌, ◌^◌, ltb, leb, ◌==◌, List, [], ◌∷◌, ◌++◌, length, drop, Option, none, some,
  if◌then◌else◌, Outcome, ok, err, panic, ◌>>=◌,
}
use blipmq.Wire.Buf.{Bytes}
use blipmq.Wire.Crc32.{Crc32}
use blipmq.Core.LogError.{LogError, corruption, text}
use blipmq.Wal.Record.{RecordLocation, WalRecord, WalScan, header_len, read_next_record_with_offset}
use blipmq.Wal.Compact.{Index}

nearer : ℕ → RecordLocation → Option (ℕ × RecordLocation) → Option (ℕ × RecordLocation)
nearer id loc none = some (id, loc)
nearer id loc (some (best, best_loc)) =
    if ltb id best then some (id, loc) else some (best, best_loc)

-- The least id from `from_id` on, and its place: the first of the sorted matches.
first_match : ℕ → Index → Option (ℕ × RecordLocation) → Option (ℕ × RecordLocation)
unfolding nearer
first_match from_id [] best = best
first_match from_id ((id, loc) ∷ index) best =
    first_match from_id index (if leb from_id id then nearer id loc best else best)

keep_from : ℕ → WalScan → List WalRecord → List WalRecord
keep_from min_id r records =
    if leb min_id r.id then record { id = r.id; payload = r.payload } ∷ records else records

-- One segment.
read_records : ⦃h : Crc32⦄ → ℕ → Bytes → ℕ → ℕ → Outcome LogError (List WalRecord)
unfolding keep_from
read_records zero file offset min_id = panic
read_records (suc fuel) file offset min_id = do
  found ← read_next_record_with_offset file offset
  elim found [
    | none ↦ ok []
    | some r ↦
        if ltb (offset + r.total_len) (2 ^ 64)
        then (do
          records ← read_records fuel r.rest (offset + r.total_len) min_id
          ok (keep_from min_id r records))
        else err (corruption (text "offset overflow"))
  ]

start_offset_for_segment : ℕ → ℕ → ℕ → ℕ
start_offset_for_segment seq start_seq start_offset =
    if seq == start_seq then start_offset else header_len

read_segments : ⦃h : Crc32⦄ → ℕ → ℕ → ℕ → List (ℕ × Bytes) → Outcome LogError (List WalRecord)
unfolding read_records start_offset_for_segment
read_segments start_seq start_offset min_id [] = ok []
read_segments start_seq start_offset min_id ((seq, file) ∷ files) =
    let offset = start_offset_for_segment seq start_seq start_offset in
    let later = read_segments start_seq start_offset min_id files in
    if ltb seq start_seq then later else (do
      here ← read_records (suc (length file)) (drop offset file) offset min_id
      rest ← later
      ok (here ++ rest))

pub iterate_from : ⦃h : Crc32⦄ → Index → List (ℕ × Bytes) → ℕ → Outcome LogError (List WalRecord)
unfolding first_match read_segments
iterate_from index files from_id = elim (first_match from_id index none) [
  | none ↦ ok []
  | some (min_id, loc) ↦ read_segments loc.segment_seq loc.offset_in_segment min_id files
]
