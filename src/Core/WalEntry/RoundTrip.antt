-- ===== src/Core/WalEntry/RoundTrip.antt =====
-- A WAL entry is read back as it was written.
use blipmq.Prelude.{
  ℕ, ◌^◌, ◌<◌, ◌≡◌, refl, arith, [], ◌∷◌, ◌++◌, length, ok, length-append, append-nil,
}
use blipmq.Wire.Buf.{Bytes, Buf}
use blipmq.Wire.Cursor.{get_uint-put, copy_to_bytes-append}
use blipmq.Wire.Utf8.{IsUtf8, from_utf8-eq}
use blipmq.Core.LogError.{
  LogError, corruption, text, QosLevel, at_most_once, at_least_once, u16_or-ok,
}
use blipmq.Core.WalEntry.{
  WalEntry, WalMessageRecord, WalAckRecord, message, ack, encode_message, decode_message,
  encode_ack, decode_ack, qos_to_byte, qos_from_byte, encode, decode,
}

-- The strings of the entry are UTF-8 and fit their length fields, and the id is a `u64`.
abbrev pub Fits : WalEntry → Type 0
Fits (message m) = (length m.topic < 2 ^ 16) × IsUtf8 m.topic
Fits (ack a) =
    (length a.client_id < 2 ^ 16)
    × IsUtf8 a.client_id
    × (length a.topic < 2 ^ 16)
    × IsUtf8 a.topic
    × (a.acked_wal_id < 2 ^ 64)

qos_from_byte-qos_to_byte :
    (q : QosLevel) → (qos_from_byte (qos_to_byte q) ≡ ok q) × (qos_to_byte q < 2 ^ 8)
unfolding qos_from_byte qos_to_byte
qos_from_byte-qos_to_byte at_most_once = (refl, omega arith)
qos_from_byte-qos_to_byte at_least_once = (refl, omega arith)

-- The record behind the kind byte.
abbrev message_bytes : ⦃b : Buf⦄ → WalMessageRecord → Bytes
message_bytes ⦃b⦄ m =
    b.put 1 (qos_to_byte m.qos) ++ (b.put 2 (length m.topic) ++ (m.topic ++ m.payload))

abbrev ack_bytes : ⦃b : Buf⦄ → WalAckRecord → Bytes
ack_bytes ⦃b⦄ a =
    b.put 2 (length a.client_id)
    ++ (a.client_id ++ (b.put 2 (length a.topic) ++ (a.topic ++ b.put 8 a.acked_wal_id)))

decode_message-message_bytes :
    ⦃b : Buf⦄ (m : WalMessageRecord) → Fits (message m) → decode_message (message_bytes m) ≡ ok m
unfolding decode_message
decode_message-message_bytes ⦃b⦄ m h =
    let E : Type 0 = LogError in
    let n : ℕ = length m.topic in
    let q : ℕ = qos_to_byte m.qos in
    let body : Bytes = m.topic ++ m.payload in
    ground (
      arith,
      qos_from_byte-qos_to_byte m.qos,
      b.length-put 1 q,
      b.length-put 2 n,
      length-append (b.put 1 q) (b.put 2 n ++ body),
      length-append (b.put 2 n) body,
      length-append m.topic m.payload,
      append-nil m.payload,
      get_uint-put {E = E} 1 q (b.put 2 n ++ body),
      get_uint-put {E = E} 2 n body,
      copy_to_bytes-append {E = E} n m.topic m.payload refl,
      copy_to_bytes-append {E = E} (length m.payload) m.payload [] refl,
      from_utf8-eq (corruption (text "topic name in WAL record is not valid UTF-8")) m.topic,
    )

decode_ack-ack_bytes : ⦃b : Buf⦄ (a : WalAckRecord) → Fits (ack a) → decode_ack (ack_bytes a) ≡ ok a
unfolding decode_ack
decode_ack-ack_bytes ⦃b⦄ a h =
    let E : Type 0 = LogError in
    let n : ℕ = length a.client_id in
    let k : ℕ = length a.topic in
    let id : Bytes = b.put 8 a.acked_wal_id in
    let tail : Bytes = b.put 2 k ++ (a.topic ++ id) in
    ground (
      arith,
      b.length-put 2 n,
      b.length-put 2 k,
      b.length-put 8 a.acked_wal_id,
      length-append (b.put 2 n) (a.client_id ++ tail),
      length-append a.client_id tail,
      length-append (b.put 2 k) (a.topic ++ id),
      length-append a.topic id,
      append-nil id,
      get_uint-put {E = E} 2 n (a.client_id ++ tail),
      get_uint-put {E = E} 2 k (a.topic ++ id),
      get_uint-put {E = E} 8 a.acked_wal_id [],
      copy_to_bytes-append {E = E} n a.client_id tail refl,
      copy_to_bytes-append {E = E} k a.topic id refl,
      from_utf8-eq (corruption (text "ack: invalid client_id utf8")) a.client_id,
      from_utf8-eq (corruption (text "ack: invalid topic utf8")) a.topic,
    )

encode-message :
    ⦃b : Buf⦄ (m : WalMessageRecord)
    → Fits (message m)
    → encode (message m) ≡ ok (1 ∷ message_bytes m)
unfolding encode encode_message
encode-message ⦃b⦄ m h = rw (u16_or-ok _ (length m.topic) h.0, b.put_u8 1 (omega arith)) refl

encode-ack : ⦃b : Buf⦄ (a : WalAckRecord) → Fits (ack a) → encode (ack a) ≡ ok (2 ∷ ack_bytes a)
unfolding encode encode_ack
encode-ack ⦃b⦄ a h =
    rw (u16_or-ok _ (length a.client_id) h.0)
      (rw (u16_or-ok _ (length a.topic) h.2) (rw (b.put_u8 2 (omega arith)) refl))

-- Every entry whose strings are UTF-8 and fit their length fields, and whose id is a `u64`, is
-- written, and is read back.
pub wal_entry_decode-encode :
    ⦃b : Buf⦄ (e : WalEntry)
    → Fits e
    → (bytes : Bytes) × (encode e ≡ ok bytes) × (decode bytes ≡ ok e)
unfolding decode
wal_entry_decode-encode (message m) h =
    (1 ∷ message_bytes m, encode-message m h, rw (decode_message-message_bytes m h) refl)
wal_entry_decode-encode (ack a) h =
    (2 ∷ ack_bytes a, encode-ack a h, rw (decode_ack-ack_bytes a h) refl)
