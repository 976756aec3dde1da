-- ===== src/Core/Checkpoint.antt =====
-- core/src/lib.rs, `CheckpointSnapshot`: for each consumer the highest acknowledged id of the log,
-- with a checksum over the bytes of the file. The `HashMap` of the cursors is the list of its
-- entries in the order of the iteration, one for each key.
pub mod RoundTrip
pub mod Total
use blipmq.Prelude.{
  ℕ, zero, suc, ◌+◌, ◌-◌, ◌^◌, ◌<◌, ◌≡◌, List, [], ◌∷◌, ◌++◌, length, take, drop, ltb, not, ◌==◌,
  ◌&&◌, Bool, if◌then◌else◌, Option, none, some, Outcome, ok, err, ◌>>=◌, ◌>>◌, reject_if,
}
use Prim.Native.String.{String}
use blipmq.Wire.Buf.{Bytes, Buf}
use blipmq.Wire.Crc32.{Crc32}
use blipmq.Wire.Cursor.{get_uint, copy_to_bytes}
use blipmq.Wire.Utf8.{from_utf8}
use blipmq.Core.LogError.{LogError, corruption, text, text_number, u16_or}
use blipmq.Core.Subject.{bytes_eq}

abbrev pub checkpoint_magic : Bytes
checkpoint_magic = b'B' ∷ b'L' ∷ b'I' ∷ b'P' ∷ b'C' ∷ b'K' ∷ b'P' ∷ b'T' ∷ []

abbrev pub checkpoint_version : ℕ
checkpoint_version = 1

-- An entry of `cursors`: the key is the client and the topic.
pub record Cursor : Type 0 where
  pub client_id : Bytes
  pub topic : Bytes
  pub wal_id : ℕ

pub record CheckpointSnapshot : Type 0 where
  pub snapshot_id : ℕ
  pub cursors : List Cursor

pub empty : CheckpointSnapshot
empty = record { snapshot_id = 0; cursors = [] }

unfoldable pub same_key : Cursor → Cursor → Bool
same_key x y = bytes_eq x.client_id y.client_id && bytes_eq x.topic y.topic

-- `cursors.insert(key, wal_id)`
insert_cursor : Cursor → List Cursor → List Cursor
unfolding same_key
insert_cursor x [] = x ∷ []
insert_cursor x (y ∷ ys) =
    let rest = insert_cursor x ys in if same_key x y then x ∷ ys else y ∷ rest

-- `u32::try_from(len).map_err(|_| LogError::Corruption(msg))`
u32_or : String → ℕ → Outcome LogError ℕ
u32_or msg n = if ltb n (2 ^ 32) then ok n else err (corruption (text msg))

-- The loop over the entries: the bytes that it appends.
put_cursors : ⦃b : Buf⦄ → List Cursor → Outcome LogError Bytes
put_cursors [] = ok []
put_cursors ⦃b⦄ (c ∷ cs) = do
  cid_len ← u16_or "client_id too long" (length c.client_id)
  topic_len ← u16_or "topic too long" (length c.topic)
  rest ← put_cursors cs
  ok (
      b.put 2 cid_len
      ++ (c.client_id ++ (b.put 2 topic_len ++ (c.topic ++ (b.put 8 c.wal_id ++ rest)))))

pub encode : ⦃b : Buf⦄ ⦃h : Crc32⦄ → CheckpointSnapshot → Outcome LogError Bytes
encode ⦃b⦄ ⦃h⦄ s = do
  n ← u32_or "too many checkpoint entries" (length s.cursors)
  entries ← put_cursors s.cursors
  let buf =
      checkpoint_magic
      ++ (b.put 4 checkpoint_version ++ (b.put 8 s.snapshot_id ++ (b.put 4 n ++ entries)))
  ok (buf ++ b.put 4 (h.checksum buf))

-- One round of the loop: the entry, and the slice behind it.
read_cursor : ⦃b : Buf⦄ → Bytes → Outcome LogError (Cursor × Bytes)
read_cursor slice = do
  reject_if (ltb (length slice) 2) (corruption (text "checkpoint truncated"))
  (cid_len, s) ← get_uint 2 slice
  reject_if (ltb (length s) (cid_len + 2)) (corruption (text "checkpoint truncated"))
  (cid_bytes, s) ← copy_to_bytes cid_len s
  cid ← from_utf8 (corruption (text "cid not utf8")) cid_bytes
  (topic_len, s) ← get_uint 2 s
  reject_if (ltb (length s) (topic_len + 8)) (corruption (text "checkpoint truncated"))
  (topic_bytes, s) ← copy_to_bytes topic_len s
  topic ← from_utf8 (corruption (text "topic not utf8")) topic_bytes
  (wal_id, s) ← get_uint 8 s
  ok (record { client_id = cid; topic = topic; wal_id = wal_id }, s)

read_cursors : ⦃b : Buf⦄ → ℕ → Bytes → List Cursor → Outcome LogError (List Cursor)
read_cursors zero slice cursors = ok cursors
read_cursors (suc n) slice cursors = do
  (c, slice) ← read_cursor slice
  read_cursors n slice (insert_cursor c cursors)

-- What follows the check of the checksum.
read_body : ⦃b : Buf⦄ → Bytes → Outcome LogError CheckpointSnapshot
read_body body = do
  (magic, s) ← copy_to_bytes 8 body
  reject_if (not (bytes_eq magic checkpoint_magic)) (corruption (text "checkpoint magic mismatch"))
  (version, s) ← get_uint 4 s
  reject_if (not (version == checkpoint_version))
      (corruption (text_number "unsupported checkpoint version" version))
  (snapshot_id, s) ← get_uint 8 s
  (n, s) ← get_uint 4 s
  cursors ← read_cursors n s []
  ok (record { snapshot_id = snapshot_id; cursors = cursors })

pub decode : ⦃b : Buf⦄ ⦃h : Crc32⦄ → Bytes → Outcome LogError CheckpointSnapshot
decode ⦃b⦄ ⦃h⦄ bytes = do
  reject_if (ltb (length bytes) (8 + 4 + 8 + 4 + 4)) (corruption (text "checkpoint file too short"))
  let crc_offset = length bytes - 4
  let body = take crc_offset bytes
  (stored_crc, _) ← get_uint 4 (drop crc_offset bytes)
  reject_if (not (h.checksum body == stored_crc)) (corruption (text "checkpoint CRC mismatch"))
  read_body body
