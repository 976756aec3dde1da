-- ===== src/Net/Payload/Publish.antt =====
-- `PublishPayload` of net/src/frame.rs: the qos byte carries a flag for each optional field.
pub mod RoundTrip
pub mod Total
use blipmq.Prelude.{
  ℕ, ◌+◌, ◌^◌, ◌<◌, ◌≡◌, refl, arith, ltb, ◌==◌, not, Bool, true, false, Option, none, some,
  is_some, ◌++◌, [], length, Outcome, ok, err, ◌>>=◌, ◌>>◌, bit_and, bit_or, if◌then◌else◌,
  reject_if,
}
use blipmq.Wire.Buf.{Bytes, Buf}
use blipmq.Wire.Cursor.{get_uint, advance, slice}
use blipmq.Wire.Utf8.{is_utf8}
use blipmq.Net.Frame.{FrameDecodeError, FrameEncodeError}
use blipmq.Net.Payload.Common.{bad_length, u16_len}

pub record PublishPayload : Type 0 where
  pub topic : Bytes
  pub qos : ℕ
  pub message : Bytes
  pub ttl_ms : Option ℕ
  pub partition_key : Option Bytes

abbrev pub publish_flag_has_ttl : ℕ
publish_flag_has_ttl = 0x80

abbrev pub publish_flag_has_key : ℕ
publish_flag_has_key = 0x40

abbrev pub publish_qos_mask : ℕ
publish_qos_mask = 0x03

-- The length field of the key, checked before anything is written.
key_len_u16 : Option Bytes → Outcome FrameEncodeError (Option ℕ)
key_len_u16 none = ok none
key_len_u16 (some k) = do n ← u16_len (length k); ok (some n)

-- The qos byte from the qos and from which fields are present.
qos_byte : ℕ → Bool → Bool → ℕ
qos_byte qos has_ttl has_key =
    let q = bit_and qos publish_qos_mask in
    let q' = if has_ttl then bit_or q publish_flag_has_ttl else q in
    if has_key then bit_or q' publish_flag_has_key else q'

put_ttl : ⦃b : Buf⦄ → Option ℕ → Bytes
put_ttl none = []
put_ttl ⦃b⦄ (some ttl) = b.put 4 ttl

put_key : ⦃b : Buf⦄ → Option Bytes → Option ℕ → Bytes
put_key ⦃b⦄ (some key) (some klen) = b.put 2 klen ++ key
put_key none _ = []
put_key (some key) none = []

pub encode : ⦃b : Buf⦄ → PublishPayload → Outcome FrameEncodeError Bytes
encode ⦃b⦄ p = do
  topic_len_u16 ← u16_len (length p.topic)
  klen ← key_len_u16 p.partition_key
  ok (
      b.put 1 (qos_byte p.qos (is_some p.ttl_ms) (is_some p.partition_key))
      ++ (put_ttl p.ttl_ms
          ++ (put_key p.partition_key klen ++ (b.put 2 topic_len_u16 ++ (p.topic ++ p.message)))))

-- The optional ttl: its value, the cursor behind it and the new `header_len`.
unfoldable pub read_ttl :
    ⦃b : Buf⦄ → Bytes → Bool → Bytes → ℕ → Outcome FrameDecodeError (Option ℕ × Bytes × ℕ)
read_ttl payload false s header_len = ok (none, s, header_len)
read_ttl payload true s header_len = do
  reject_if (ltb (length s) 4) (bad_length payload)
  (ttl, s) ← get_uint 4 s
  ok (some ttl, s, header_len + 4)

unfoldable pub read_key :
    ⦃b : Buf⦄ → Bytes → Bool → Bytes → ℕ → Outcome FrameDecodeError (Option Bytes × Bytes × ℕ)
read_key payload false s header_len = ok (none, s, header_len)
read_key payload true s header_len = do
  reject_if (ltb (length s) 2) (bad_length payload)
  (klen, s) ← get_uint 2 s
  let header_len = header_len + 2
  reject_if (ltb (length s) klen) (bad_length payload)
  key ← slice header_len (header_len + klen) payload
  s ← advance klen s
  ok (some key, s, header_len + klen)

-- The topic and the message, from the cursor behind the optional fields on.
unfoldable pub read_body :
    ⦃b : Buf⦄
    → Bytes
    → ℕ
    → Option ℕ
    → Option Bytes
    → Bytes
    → ℕ
    → Outcome FrameDecodeError PublishPayload
read_body payload qos ttl_ms partition_key s header_len = do
  reject_if (ltb (length s) 2) (bad_length payload)
  (topic_len, s) ← get_uint 2 s
  let header_len = header_len + 2
  reject_if (ltb (length s) topic_len) (bad_length payload)
  topic ← slice header_len (header_len + topic_len) payload
  reject_if (not (is_utf8 topic)) (bad_length payload)
  message ← slice (header_len + topic_len) (length payload) payload
  ok (record {
    topic = topic;
    qos = qos;
    message = message;
    ttl_ms = ttl_ms;
    partition_key = partition_key;
  })

unfoldable pub decode : ⦃b : Buf⦄ → Bytes → Outcome FrameDecodeError PublishPayload
decode payload = do
  reject_if (ltb (length payload) 3) (bad_length payload)
  (qos_byte, s) ← get_uint 1 payload
  let qos = bit_and qos_byte publish_qos_mask
  let has_ttl = not (bit_and qos_byte publish_flag_has_ttl == 0)
  let has_key = not (bit_and qos_byte publish_flag_has_key == 0)
  (ttl_ms, s, header_len) ← read_ttl payload has_ttl s 1
  (partition_key, s, header_len) ← read_key payload has_key s header_len
  read_body payload qos ttl_ms partition_key s header_len
