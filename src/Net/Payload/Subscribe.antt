-- ===== src/Net/Payload/Subscribe.antt =====
-- `SubscribePayload` of net/src/frame.rs: the qos byte behind the topic carries the flags.
pub mod RoundTrip
pub mod Total
use blipmq.Prelude.{
  ℕ, ◌+◌, ◌^◌, ◌<◌, ◌≡◌, refl, arith, ltb, ◌==◌, not, Bool, true, false, Option, none, some,
  is_some, ◌++◌, [], length, Outcome, ok, err, ◌>>=◌, ◌>>◌, bit_and, bit_or, if◌then◌else◌,
  reject_if,
}
use blipmq.Wire.Buf.{Bytes, Buf}
use blipmq.Wire.Cursor.{get_uint, copy_to_bytes}
use blipmq.Wire.Utf8.{from_utf8}
use blipmq.Net.Frame.{FrameDecodeError, FrameEncodeError}
use blipmq.Net.Payload.Common.{bad_length, u16_len}

pub record SubscribePayload : Type 0 where
  pub topic : Bytes
  pub qos : ℕ
  pub group : Option Bytes
  pub from_offset : Option ℕ

abbrev pub subscribe_flag_has_group : ℕ
subscribe_flag_has_group = 0x80

abbrev pub subscribe_flag_has_offset : ℕ
subscribe_flag_has_offset = 0x40

abbrev pub subscribe_qos_mask : ℕ
subscribe_qos_mask = 0x03

group_len_u16 : Option Bytes → Outcome FrameEncodeError (Option ℕ)
group_len_u16 none = ok none
group_len_u16 (some g) = do n ← u16_len (length g); ok (some n)

qos_byte : ℕ → Bool → Bool → ℕ
qos_byte qos has_group has_offset =
    let q = bit_and qos subscribe_qos_mask in
    let q' = if has_group then bit_or q subscribe_flag_has_group else q in
    if has_offset then bit_or q' subscribe_flag_has_offset else q'

put_group : ⦃b : Buf⦄ → Option Bytes → Option ℕ → Bytes
put_group ⦃b⦄ (some group) (some glen) = b.put 2 glen ++ group
put_group none _ = []
put_group (some group) none = []

put_offset : ⦃b : Buf⦄ → Option ℕ → Bytes
put_offset none = []
put_offset ⦃b⦄ (some offset) = b.put 8 offset

pub encode : ⦃b : Buf⦄ → SubscribePayload → Outcome FrameEncodeError Bytes
encode ⦃b⦄ p = do
  topic_len_u16 ← u16_len (length p.topic)
  glen ← group_len_u16 p.group
  ok (
      b.put 2 topic_len_u16
      ++ (p.topic
          ++ (b.put 1 (qos_byte p.qos (is_some p.group) (is_some p.from_offset))
              ++ (put_group p.group glen ++ put_offset p.from_offset))))

read_group : ⦃b : Buf⦄ → Bytes → Bool → Bytes → Outcome FrameDecodeError (Option Bytes × Bytes)
read_group payload false s = ok (none, s)
read_group payload true s = do
  reject_if (ltb (length s) 2) (bad_length payload)
  (group_len, s) ← get_uint 2 s
  reject_if (ltb (length s) group_len) (bad_length payload)
  (group_bytes, s) ← copy_to_bytes group_len s
  g ← from_utf8 (bad_length payload) group_bytes
  ok (some g, s)

read_offset : ⦃b : Buf⦄ → Bytes → Bool → Bytes → Outcome FrameDecodeError (Option ℕ)
read_offset payload false s = ok none
read_offset payload true s = do
  reject_if (ltb (length s) 8) (bad_length payload)
  (offset, _) ← get_uint 8 s
  ok (some offset)

-- The qos byte and the fields that it announces, behind the topic.
read_options : ⦃b : Buf⦄ → Bytes → Bytes → Bytes → Outcome FrameDecodeError SubscribePayload
read_options payload topic s = do
  (qos_raw, s) ← get_uint 1 s
  let has_group = not (bit_and qos_raw subscribe_flag_has_group == 0)
  let has_offset = not (bit_and qos_raw subscribe_flag_has_offset == 0)
  let qos = bit_and qos_raw subscribe_qos_mask
  (group, s) ← read_group payload has_group s
  from_offset ← read_offset payload has_offset s
  ok (record { topic = topic; qos = qos; group = group; from_offset = from_offset })

pub decode : ⦃b : Buf⦄ → Bytes → Outcome FrameDecodeError SubscribePayload
decode payload = do
  reject_if (ltb (length payload) 3) (bad_length payload)
  (topic_len, s) ← get_uint 2 payload
  reject_if (ltb (length s) (topic_len + 1)) (bad_length payload)
  (topic_bytes, s) ← copy_to_bytes topic_len s
  topic ← from_utf8 (bad_length payload) topic_bytes
  read_options payload topic s
