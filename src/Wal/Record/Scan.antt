-- ===== src/Wal/Record/Scan.antt =====
-- What the writer of the log wrote, the scan of the segment finds.
use blipmq.Prelude.{
  ℕ, zero, suc, ◌+◌, ◌%◌, ◌^◌, ◌≤◌, ◌<◌, ◌≡◌, refl, ap, sym, ◌∙◌, arith, true, ltb, List, [], ◌∷◌,
  ◌++◌, All, map, length, take, drop-append, length-append, append-nil, append_assoc, none, ok,
}
use blipmq.Wire.Buf.{Bytes}
use blipmq.Wire.Crc32.{Crc32}
use blipmq.Wal.Record.{
  WalWriteRequest, RecordLocation, frame_batch, read_next_record_with_offset, scan_records,
  rebuild_segment_index, header_len,
}
use blipmq.Wal.Record.Layout.{
  Built, Built-header, request_bytes, length-header_bytes, read-torn, read-request,
}

abbrev pub found_at : ℕ × RecordLocation → ℕ × ℕ
found_at o = (o.0, o.1.offset_in_segment)

-- The id behind that of the last record.
abbrev pub next_after : ℕ → List WalWriteRequest → ℕ
next_after n [] = n
next_after n (r ∷ rs) = next_after ((r.id + 1) % 2 ^ 64) rs

frame_batch-le :
    (seq offset : ℕ) (rs : List WalWriteRequest) → offset ≤ (frame_batch seq offset rs).2
unfolding frame_batch
frame_batch-le seq offset [] = omega arith
frame_batch-le seq offset (r ∷ rs) =
    omega (arith, frame_batch-le seq (offset + (16 + length r.payload)) rs)

scan_records-frame_batch :
    ⦃h : Crc32⦄ (seq fuel offset next_id : ℕ) (records : List (ℕ × ℕ)) (rs : List WalWriteRequest)
    (torn : Bytes)
    → All Built rs
    → ((o : ℕ) → read_next_record_with_offset torn o ≡ ok none)
    → (frame_batch seq offset rs).2 < 2 ^ 64
    → length (frame_batch seq offset rs).1 < fuel
    → scan_records fuel ((frame_batch seq offset rs).1 ++ torn) offset next_id records
      ≡ ok (
        records ++ map found_at (frame_batch seq offset rs).0,
        next_after next_id rs,
        (frame_batch seq offset rs).2,
      )
unfolding scan_records frame_batch
scan_records-frame_batch seq zero offset next_id records rs torn b t fits f = absurd (omega arith)
scan_records-frame_batch seq (suc fuel) offset next_id records [] torn b t fits f =
    rw (t offset, append-nil records) refl
scan_records-frame_batch seq (suc fuel) offset next_id records (r ∷ rs) torn b t fits f =
    let offset' : ℕ = offset + (16 + length r.payload) in
    let buf : Bytes = (frame_batch seq offset' rs).1 in
    let a : (r.header ++ (r.payload ++ buf)) ++ torn ≡ r.header ++ (r.payload ++ (buf ++ torn)) =
      append_assoc r.header (r.payload ++ buf) torn
      ∙ ap (λ (x : Bytes). r.header ++ x) (append_assoc r.payload buf torn) in
    let small : ltb offset' (2 ^ 64) ≡ true = ground (arith, frame_batch-le seq offset' rs) in
    let (hlen, e) = Built-header r b.0 in
    let n' : length r.header ≡ 16 = ap length e ∙ length-header_bytes r in
    rw (a, read-request r (buf ++ torn) offset b.0, small)
      (scan_records-frame_batch seq fuel offset' ((r.id + 1) % 2 ^ 64)
          (records ++ ((r.id, offset) ∷ [])) rs torn b.1 t fits
          (omega
            (arith, n', length-append r.header (r.payload ++ buf), length-append r.payload buf))
        ∙ ap
            (λ (found : List (ℕ × ℕ)).
              ok (found, next_after ((r.id + 1) % 2 ^ 64) rs, (frame_batch seq offset' rs).2))
            (append_assoc records ((r.id, offset) ∷ [])
              (map found_at (frame_batch seq offset' rs).0)))

-- A segment of less than 2 ^ 64 bytes that holds 32 bytes of header, records that were built and
-- framed, and perhaps the beginning of one more that was cut off, is opened without an error: each
-- whole record is found with its id at the offset where the writer put it, the next id follows the
-- last one, and the end is the end of the whole records.
pub rebuild_segment_index-frame_batch :
    ⦃h : Crc32⦄ (file_header : Bytes) (seq : ℕ) (rs : List WalWriteRequest) (last : WalWriteRequest)
    (k : ℕ)
    → length file_header ≡ header_len
    → All Built rs
    → Built last
    → k < length (request_bytes last)
    → (frame_batch seq header_len rs).2 < 2 ^ 64
    → rebuild_segment_index
        (file_header ++ ((frame_batch seq header_len rs).1 ++ take k (request_bytes last)))
      ≡ ok (
        map found_at (frame_batch seq header_len rs).0,
        next_after 1 rs,
        (frame_batch seq header_len rs).2,
      )
unfolding rebuild_segment_index
rebuild_segment_index-frame_batch file_header seq rs last k hl b bl cut fits =
    let torn : Bytes = take k (request_bytes last) in
    let buf : Bytes = (frame_batch seq 32 rs).1 in
    let fuel : ℕ = suc (length (file_header ++ (buf ++ torn))) in
    let enough : length buf < fuel =
      omega (arith, length-append file_header (buf ++ torn), length-append buf torn) in
    rw (drop-append file_header (buf ++ torn) 32 hl) (
      scan_records-frame_batch seq fuel 32 1 [] rs torn b (λ o. read-torn last k o bl cut) fits
        enough)

-- A segment with no record cut off.
pub rebuild_segment_index-whole :
    ⦃h : Crc32⦄ (file_header : Bytes) (seq : ℕ) (rs : List WalWriteRequest)
    → length file_header ≡ header_len
    → All Built rs
    → (frame_batch seq header_len rs).2 < 2 ^ 64
    → rebuild_segment_index (file_header ++ (frame_batch seq header_len rs).1)
      ≡ ok (
        map found_at (frame_batch seq header_len rs).0,
        next_after 1 rs,
        (frame_batch seq header_len rs).2,
      )
unfolding rebuild_segment_index read_next_record_with_offset
rebuild_segment_index-whole file_header seq rs hl b fits =
    let buf : Bytes = (frame_batch seq 32 rs).1 in
    let fuel : ℕ = suc (length (file_header ++ buf)) in
    rw (drop-append file_header buf 32 hl) (
      ap (λ (t : Bytes). scan_records fuel t 32 1 []) (sym (append-nil buf))
      ∙ scan_records-frame_batch seq fuel 32 1 [] rs [] b (λ o. refl) fits
          (omega (arith, length-append file_header buf)))
