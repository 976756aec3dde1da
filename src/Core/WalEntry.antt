-- ===== src/Core/WalEntry.antt =====
-- core/src/lib.rs, `WalEntry`: the records that the broker keeps in the write-ahead log, a
-- published message or an acknowledgement, told apart by the first byte.
pub mod RoundTrip
pub mod Total
use blipmq.Prelude.{
  ℕ, ◌+◌, ◌≡◌, List, [], ◌∷◌, ◌++◌, length, ltb, ◌==◌, if◌then◌else◌, Outcome, ok, err, ◌>>=◌, ◌>>◌,
  reject_if,
}
use blipmq.Wire.Buf.{Bytes, Buf}
use blipmq.Wire.Cursor.{get_uint, copy_to_bytes}
use blipmq.Wire.Utf8.{from_utf8}
use blipmq.Core.LogError.{
  LogError, corruption, text, text_number, QosLevel, at_most_once, at_least_once, u16_or,
}

abbrev pub wal_kind_message : ℕ
wal_kind_message = 1

abbrev pub wal_kind_ack : ℕ
wal_kind_ack = 2

pub record WalMessageRecord : Type 0 where
  pub topic : Bytes
  pub qos : QosLevel
  pub payload : Bytes

pub record WalAckRecord : Type 0 where
  pub client_id : Bytes
  pub topic : Bytes
  pub acked_wal_id : ℕ

pub data WalEntry : Type 0 where
  message : WalMessageRecord → WalEntry
  ack : WalAckRecord → WalEntry

encode_ack : ⦃b : Buf⦄ → WalAckRecord → Outcome LogError Bytes
encode_ack ⦃b⦄ a = do
  cid_len ← u16_or "client_id too long for WAL ack" (length a.client_id)
  topic_len ← u16_or "topic too long for WAL ack" (length a.topic)
  ok (
      b.put 1 wal_kind_ack
      ++ (b.put 2 cid_len
          ++ (a.client_id ++ (b.put 2 topic_len ++ (a.topic ++ b.put 8 a.acked_wal_id)))))

decode_ack : ⦃b : Buf⦄ → Bytes → Outcome LogError WalAckRecord
decode_ack bytes = do
  reject_if (ltb (length bytes) 2) (corruption (text "ack record too short"))
  (cid_len, s) ← get_uint 2 bytes
  reject_if (ltb (length s) (cid_len + 2)) (corruption (text "ack: cid len overflow"))
  (cid_bytes, s) ← copy_to_bytes cid_len s
  client_id ← from_utf8 (corruption (text "ack: invalid client_id utf8")) cid_bytes
  (topic_len, s) ← get_uint 2 s
  reject_if (ltb (length s) (topic_len + 8)) (corruption (text "ack: topic len overflow"))
  (topic_bytes, s) ← copy_to_bytes topic_len s
  topic ← from_utf8 (corruption (text "ack: invalid topic utf8")) topic_bytes
  (acked_wal_id, _) ← get_uint 8 s
  ok (record { client_id = client_id; topic = topic; acked_wal_id = acked_wal_id })

qos_to_byte : QosLevel → ℕ
qos_to_byte at_most_once = 0
qos_to_byte at_least_once = 1

qos_from_byte : ℕ → Outcome LogError QosLevel
qos_from_byte v =
    if v == 0
    then ok at_most_once
    else if v == 1
    then ok at_least_once
    else err (corruption (text_number "invalid QoS value in WAL record" v))

encode_message : ⦃b : Buf⦄ → WalMessageRecord → Outcome LogError Bytes
encode_message ⦃b⦄ m = do
  topic_len_u16 ← u16_or "topic name too long for WAL record" (length m.topic)
  ok (
      b.put 1 wal_kind_message
      ++ (b.put 1 (qos_to_byte m.qos) ++ (b.put 2 topic_len_u16 ++ (m.topic ++ m.payload))))

decode_message : ⦃b : Buf⦄ → Bytes → Outcome LogError WalMessageRecord
decode_message bytes = do
  reject_if (ltb (length bytes) 3) (corruption (text "WAL message record too short"))
  (qos_byte, s) ← get_uint 1 bytes
  qos ← qos_from_byte qos_byte
  (topic_len, s) ← get_uint 2 s
  reject_if (ltb (length s) topic_len)
      (corruption (text "WAL record truncated while reading topic"))
  (topic_bytes, s) ← copy_to_bytes topic_len s
  topic ← from_utf8 (corruption (text "topic name in WAL record is not valid UTF-8")) topic_bytes
  (payload, _) ← copy_to_bytes (length s) s
  ok (record { topic = topic; qos = qos; payload = payload })

pub encode : ⦃b : Buf⦄ → WalEntry → Outcome LogError Bytes
encode (message m) = encode_message m
encode (ack a) = encode_ack a

pub decode : ⦃b : Buf⦄ → Bytes → Outcome LogError WalEntry
decode [] = err (corruption (text "empty WAL entry"))
decode (kind ∷ rest) =
    if kind == wal_kind_message
    then (do m ← decode_message rest; ok (message m))
    else if kind == wal_kind_ack
    then (do a ← decode_ack rest; ok (ack a))
    else err (corruption (text_number "unknown WAL entry kind" kind))
