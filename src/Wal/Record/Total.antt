-- ===== src/Wal/Record/Total.antt =====
-- The scan of a segment ends on any file.
use blipmq.Prelude.{
  ℕ, zero, suc, ◌+◌, ◌%◌, ◌^◌, ◌<◌, ◌≡◌, arith, List, [], ◌∷◌, ◌++◌, length, take, drop,
  length-drop, ltb, if◌then◌else◌, Option, none, some, Outcome, ok, err, Returns, Returns-bind,
}
use blipmq.Wire.Buf.{Bytes}
use blipmq.Wire.Crc32.{Crc32}
use blipmq.Wire.Endian.{from_le_bytes}
use blipmq.Core.LogError.{LogError, corruption, text}
use blipmq.Wal.Record.{WalScan, read_next_record_with_offset, scan_records, rebuild_segment_index}

pub read-Returns :
    ⦃h : Crc32⦄ (file : Bytes) (offset : ℕ) → Returns (read_next_record_with_offset file offset)
unfolding read_next_record_with_offset
read-Returns file offset = ground arith

-- A record that was read is gone from the rest of the file.
pub read-shrinks :
    ⦃h : Crc32⦄ (file : Bytes) (offset : ℕ) (r : WalScan)
    → read_next_record_with_offset file offset ≡ ok (some r)
    → length r.rest < length file
unfolding read_next_record_with_offset
read-shrinks file offset r e =
    let len : ℕ = from_le_bytes (take 4 (drop 8 file)) in
    ground (arith, length-drop 16 file, length-drop len (drop 16 file))

-- What a round does with the record that it read.
abbrev scan_found :
    ⦃h : Crc32⦄
    → ℕ
    → ℕ
    → ℕ
    → List (ℕ × ℕ)
    → Option WalScan
    → Outcome LogError (List (ℕ × ℕ) × ℕ × ℕ)
scan_found fuel offset next_id records found = elim found [
  | none ↦ ok (records, next_id, offset)
  | some r ↦
      if ltb (offset + r.total_len) (2 ^ 64)
      then scan_records fuel r.rest (offset + r.total_len) ((r.id + 1) % 2 ^ 64)
          (records ++ ((r.id, r.record_offset) ∷ []))
      else err (corruption (text "offset overflow"))
]

scan_found-Returns :
    ⦃h : Crc32⦄ (file : Bytes) (fuel offset next_id : ℕ) (records : List (ℕ × ℕ))
    → length file < suc fuel
    → ((r : WalScan)
        → length r.rest < fuel
        → Returns (
            scan_records fuel r.rest
              (offset + r.total_len)
              ((r.id + 1) % 2 ^ 64)
              (records ++ ((r.id, r.record_offset) ∷ []))))
    → (found : Option WalScan) → read_next_record_with_offset file offset ≡ ok found
    → Returns (scan_found fuel offset next_id records found)
scan_found-Returns file fuel offset next_id records lt later none e = tt
scan_found-Returns file fuel offset next_id records lt later (some r) e =
    ground (arith, read-shrinks file offset r e, later r)

scan_records-Returns :
    ⦃h : Crc32⦄ (fuel : ℕ) (file : Bytes) (offset next_id : ℕ) (records : List (ℕ × ℕ))
    → length file < fuel
    → Returns (scan_records fuel file offset next_id records)
unfolding scan_records
scan_records-Returns zero file offset next_id records lt = absurd (omega arith)
scan_records-Returns (suc fuel) file offset next_id records lt =
    Returns-bind (read_next_record_with_offset file offset) _ (read-Returns file offset) (
      scan_found-Returns file fuel offset next_id records lt λ r.
        scan_records-Returns fuel r.rest (offset + r.total_len) ((r.id + 1) % 2 ^ 64)
          (records ++ ((r.id, r.record_offset) ∷ [])))

-- Opening a segment ends on any bytes, with an index or an error: the rounds suffice.
rebuild_segment_index-Returns : ⦃h : Crc32⦄ (file : Bytes) → Returns (rebuild_segment_index file)
unfolding rebuild_segment_index
rebuild_segment_index-Returns file =
    scan_records-Returns (suc (length file)) (drop 32 file) 32 1 []
      (omega (arith, length-drop 32 file))
