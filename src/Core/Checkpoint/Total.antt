-- ===== src/Core/Checkpoint/Total.antt =====
-- `CheckpointSnapshot::decode` on arbitrary bytes.
use blipmq.Prelude.{
  ℕ, zero, suc, ◌-◌, ◌≤◌, arith, List, [], length, take, drop, length-drop, length-take, Returns,
  Returns-bind, ok, ◌≡◌, take_all,
}
use blipmq.Wire.Buf.{Bytes, Buf}
use blipmq.Wire.Crc32.{Crc32}
use blipmq.Wire.Cursor.{get_uint, copy_to_bytes}
use blipmq.Wire.Utf8.{from_utf8}
use blipmq.Core.Checkpoint.{
  CheckpointSnapshot, Cursor, read_cursor, read_cursors, read_body, decode, insert_cursor,
}

read_cursor-Returns : ⦃b : Buf⦄ (bytes : Bytes) → Returns (read_cursor bytes)
unfolding read_cursor get_uint copy_to_bytes from_utf8
read_cursor-Returns ⦃b⦄ bytes =
    let n : ℕ = b.get 2 (take 2 bytes) in
    let s : Bytes = drop n (drop 2 bytes) in
    let k : ℕ = b.get 2 (take 2 s) in
    ground (
      arith,
      length-drop 2 bytes,
      length-drop n (drop 2 bytes),
      length-drop 2 s,
      length-drop k (drop 2 s),
    )

read_cursors-Returns :
    ⦃b : Buf⦄ (n : ℕ) (slice : Bytes) (cursors : List Cursor)
    → Returns (read_cursors n slice cursors)
unfolding read_cursors
read_cursors-Returns zero slice cursors = tt
read_cursors-Returns (suc n) slice cursors =
    Returns-bind (read_cursor slice) _ (read_cursor-Returns slice)
      λ r _. read_cursors-Returns n r.1 (insert_cursor r.0 cursors)

read_body-Returns : ⦃b : Buf⦄ (body : Bytes) → 24 ≤ length body → Returns (read_body body)
unfolding read_body get_uint copy_to_bytes
read_body-Returns ⦃b⦄ body h =
    let s : Bytes = drop 8 (drop 4 (drop 8 body)) in
    ground (
      arith,
      length-drop 8 body,
      length-drop 4 (drop 8 body),
      length-drop 8 (drop 4 (drop 8 body)),
      read_cursors-Returns (b.get 4 (take 4 s)) (drop 4 s) [],
    )

-- The decoder of a checkpoint returns a value or an error on any bytes.
checkpoint_decode-Returns : ⦃b : Buf⦄ ⦃h : Crc32⦄ (bytes : Bytes) → Returns (decode bytes)
unfolding decode get_uint
checkpoint_decode-Returns ⦃b⦄ ⦃h⦄ bytes =
    let n : ℕ = length bytes - 4 in
    ground (arith, length-drop n bytes, length-take n bytes, read_body-Returns (take n bytes))

-- A checkpoint that was read had its own checksum in its last four bytes: other bytes are refused.
checkpoint_decode-checked :
    ⦃b : Buf⦄ ⦃h : Crc32⦄ (bytes : Bytes) {s : CheckpointSnapshot}
    → decode bytes ≡ ok s
    → h.checksum (take (length bytes - 4) bytes) ≡ b.get 4 (drop (length bytes - 4) bytes)
unfolding decode get_uint
checkpoint_decode-checked ⦃b⦄ ⦃h⦄ bytes e =
    let n : ℕ = length bytes - 4 in ground (arith, length-drop n bytes, take_all (drop n bytes) 4)
