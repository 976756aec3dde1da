-- ===== src/Wal/Record.antt =====
-- wal/src/lib.rs: the framing of a record, its id, length and checksum before the payload, and the
-- scan of a segment when the log is opened. A file is the list of its bytes; reading returns what
-- is asked for, or stops at the end of the file.
pub mod Layout
pub mod Scan
pub mod Total
use blipmq.Prelude.{
  ℕ, zero, suc, ◌+◌, ◌%◌, ◌^◌, ◌≡◌, List, [], ◌∷◌, ◌++◌, length, take, drop, ltb, ◌==◌, not, ◌&&◌,
  Bool, if◌then◌else◌, Option, none, some, Outcome, ok, err, panic, ◌>>=◌,
}
use blipmq.Wire.Buf.{Bytes}
use blipmq.Wire.Crc32.{Crc32}
use blipmq.Wire.Endian.{le_bytes, from_le_bytes}
use blipmq.Core.LogError.{LogError, corruption, text, crc_mismatch}

abbrev pub header_len : ℕ
header_len = 32

abbrev pub record_header_len : ℕ
record_header_len = 8 + 4 + 4

pub record WalWriteRequest : Type 0 where
  pub id : ℕ
  pub header : Bytes
  pub payload : Bytes
  pub durable_ack : Bool  -- whether `append_durable` waits for it

pub record RecordLocation : Type 0 where
  pub segment_seq : ℕ
  pub offset_in_segment : ℕ

pub record WalRecord : Type 0 where
  pub id : ℕ
  pub payload : Bytes

-- The id is taken from `next_id`, which is counted up also when the record is refused.
unfoldable pub build_request :
    ⦃h : Crc32⦄ → ℕ → Bytes → Bool → ℕ × Outcome LogError (ℕ × WalWriteRequest)
build_request ⦃h⦄ id payload durable_ack = (
  (id + 1) % 2 ^ 64,
  (if ltb (length payload) (2 ^ 32)
      then (let framing = le_bytes 8 id ++ le_bytes 4 (length payload) in
          ok (
            id,
            record {
              id = id;
              header = framing ++ le_bytes 4 (h.checksum (framing ++ payload));
              payload = payload;
              durable_ack = durable_ack;
            },
          ))
      else err (corruption (text "record too large"))),
)

-- The loop of `write_batch`: where each record will stand, the bytes to write, and the offset
-- behind them.
unfoldable pub frame_batch : ℕ → ℕ → List WalWriteRequest → List (ℕ × RecordLocation) × Bytes × ℕ
frame_batch seq current_offset [] = ([], [], current_offset)
frame_batch seq current_offset (r ∷ rs) =
    let (offsets, buf, end_offset) =
      frame_batch seq (current_offset + (record_header_len + length r.payload)) rs in
    (
      (r.id, record { segment_seq = seq; offset_in_segment = current_offset }) ∷ offsets,
      r.header ++ (r.payload ++ buf),
      end_offset,
    )

-- What `read_next_record_with_offset` returns of a record, and the rest of the file.
pub record WalScan : Type 0 where
  pub id : ℕ
  pub payload : Bytes
  pub record_offset : ℕ
  pub total_len : ℕ
  pub rest : Bytes

unfoldable pub read_next_record_with_offset :
    ⦃h : Crc32⦄ → Bytes → ℕ → Outcome LogError (Option WalScan)
read_next_record_with_offset ⦃h⦄ file current_offset =
    if ltb (length file) record_header_len
    then ok none
    else (let id = from_le_bytes (take 8 file) in
        let len = from_le_bytes (take 4 (drop 8 file)) in
        let expected_crc = from_le_bytes (take 4 (drop 12 file)) in
        let behind = drop record_header_len file in
        if ltb (length behind) len
        then ok none
        else (let payload = take len behind in
            let actual_crc = h.checksum (take 12 file ++ payload) in
            if not (actual_crc == expected_crc)
            then err (corruption (crc_mismatch current_offset expected_crc actual_crc))
            else ok (
                some (record {
                  id = id;
                  payload = payload;
                  record_offset = current_offset;
                  total_len = record_header_len + len;
                  rest = drop len behind;
                }))))

-- The loop of `rebuild_segment_index`. Each round reads a record header of the file, so that more
-- rounds than the file has bytes are enough; running out of them is a panic of the model.
pub scan_records :
    ⦃h : Crc32⦄ → ℕ → Bytes → ℕ → ℕ → List (ℕ × ℕ) → Outcome LogError (List (ℕ × ℕ) × ℕ × ℕ)
scan_records zero file offset next_id records = panic
scan_records (suc fuel) file offset next_id records = do
  found ← read_next_record_with_offset file offset
  elim found [
    | none ↦ ok (records, next_id, offset)
    | some r ↦
        if ltb (offset + r.total_len) (2 ^ 64)
        then scan_records fuel r.rest (offset + r.total_len) ((r.id + 1) % 2 ^ 64)
            (records ++ ((r.id, r.record_offset) ∷ []))
        else err (corruption (text "offset overflow"))
  ]

pub rebuild_segment_index : ⦃h : Crc32⦄ → Bytes → Outcome LogError (List (ℕ × ℕ) × ℕ × ℕ)
rebuild_segment_index file = scan_records (suc (length file)) (drop header_len file) header_len 1 []
