-- ===== src/Core/WalEntry/Total.antt =====
-- `WalEntry::decode` on arbitrary bytes.
use blipmq.Prelude.{ℕ, arith, [], ◌∷◌, take, drop, length-drop, Returns}
use blipmq.Wire.Buf.{Bytes, Buf}
use blipmq.Wire.Cursor.{get_uint, copy_to_bytes}
use blipmq.Wire.Utf8.{from_utf8}
use blipmq.Core.LogError.{u16_or}
use blipmq.Core.WalEntry.{
  WalEntry, message, ack, encode_message, encode_ack, encode, decode_message, decode_ack, decode,
  qos_from_byte,
}

decode_message-Returns : ⦃b : Buf⦄ (bytes : Bytes) → Returns (decode_message bytes)
unfolding decode_message get_uint copy_to_bytes from_utf8 qos_from_byte
decode_message-Returns bytes = ground (arith, length-drop 1 bytes, length-drop 2 (drop 1 bytes))

decode_ack-Returns : ⦃b : Buf⦄ (bytes : Bytes) → Returns (decode_ack bytes)
unfolding decode_ack get_uint copy_to_bytes from_utf8
decode_ack-Returns ⦃b⦄ bytes =
    let n : ℕ = b.get 2 (take 2 bytes) in
    let s : Bytes = drop n (drop 2 bytes) in
    let k : ℕ = b.get 2 (take 2 s) in
    ground (
      arith,
      length-drop 2 bytes,
      length-drop n (drop 2 bytes),
      length-drop 2 s,
      length-drop k (drop 2 s),
    )

-- Replay may read any bytes as an entry: the decoder returns a value or an error.
wal_entry_decode-Returns : ⦃b : Buf⦄ (bytes : Bytes) → Returns (decode bytes)
unfolding decode
wal_entry_decode-Returns [] = tt
wal_entry_decode-Returns (kind ∷ rest) =
    ground (arith, decode_message-Returns rest, decode_ack-Returns rest)

-- A message or an acknowledgement is encoded, or refused with an error.
pub wal_entry_encode-Returns : ⦃b : Buf⦄ (e : WalEntry) → Returns (encode e)
unfolding encode encode_ack encode_message u16_or
wal_entry_encode-Returns (message m) = ground arith
wal_entry_encode-Returns (ack a) = ground arith
