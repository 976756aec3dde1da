-- ===== src/Net/Payload/Subscribe/RoundTrip.antt =====
-- `SubscribePayload::decode` after `encode`, and on arbitrary bytes.
use blipmq.Prelude.{
  ℕ, ◌^◌, ◌<◌, ◌≡◌, refl, arith, Bool, Option, none, some, is_some, ◌++◌, [], length, ok, bit_and,
  append_assoc, length-append, append-nil,
}
use blipmq.Wire.Buf.{Bytes, Buf}
use blipmq.Wire.Cursor.{get_uint-put, copy_to_bytes-append}
use blipmq.Wire.Utf8.{IsUtf8, from_utf8-eq}
use blipmq.Net.Frame.{FrameDecodeError}
use blipmq.Net.Payload.Flags.{ReadsBack, flag_byte-ReadsBack}
use blipmq.Net.Payload.Common.{bad_length, u16_len-ok}
use blipmq.Net.Payload.Subscribe.{
  SubscribePayload, group_len_u16, qos_byte, put_group, put_offset, encode, read_group, read_offset,
  read_options, decode,
}

flags_lem :
    (high low : Bool) (qos : ℕ) → qos < 2 ^ 8 → ReadsBack qos high low (qos_byte qos high low)
unfolding qos_byte
flags_lem = flag_byte-ReadsBack

abbrev pub GroupFits : Option Bytes → Type 0
GroupFits none = Unit
GroupFits (some group) = (length group < 2 ^ 16) × IsUtf8 group

abbrev pub OffsetFits : Option ℕ → Type 0
OffsetFits none = Unit
OffsetFits (some offset) = offset < 2 ^ 64

-- The group as `encode` writes it.
abbrev group_bytes : ⦃b : Buf⦄ → Option Bytes → Bytes
group_bytes none = []
group_bytes ⦃b⦄ (some group) = b.put 2 (length group) ++ group

read_group-group_bytes :
    ⦃b : Buf⦄ (payload : Bytes) (group : Option Bytes) (rest : Bytes)
    → GroupFits group
    → read_group payload (is_some group) (group_bytes group ++ rest) ≡ ok (group, rest)
unfolding read_group
read_group-group_bytes payload none rest h = refl
read_group-group_bytes ⦃b⦄ payload (some group) rest h =
    let E : Type 0 = FrameDecodeError in
    let n : ℕ = length group in
    ground (
      arith,
      append_assoc (b.put 2 n) group rest,
      b.length-put 2 n,
      length-append (b.put 2 n) (group ++ rest),
      length-append group rest,
      get_uint-put {E = E} 2 n (group ++ rest) h.0,
      copy_to_bytes-append {E = E} n group rest refl,
      from_utf8-eq (bad_length payload) group h.1,
    )

read_offset-put_offset :
    ⦃b : Buf⦄ (payload : Bytes) (offset : Option ℕ)
    → OffsetFits offset
    → read_offset payload (is_some offset) (put_offset offset) ≡ ok offset
unfolding read_offset put_offset
read_offset-put_offset payload none h = refl
read_offset-put_offset ⦃b⦄ payload (some offset) h = ground (
  arith,
  b.length-put 8 offset,
  append-nil (b.put 8 offset),
  get_uint-put {E = FrameDecodeError} 8 offset [] h,
)

put_group_lem :
    ⦃b : Buf⦄ (group : Option Bytes)
    → GroupFits group
    → (glen : Option ℕ) × (group_len_u16 group ≡ ok glen)
      × (put_group group glen ≡ group_bytes group)
unfolding group_len_u16 put_group
put_group_lem none h = (none, refl, refl)
put_group_lem (some group) h = (some (length group), rw (u16_len-ok (length group) h.0) refl, refl)

-- The payload that `encode` writes.
abbrev wire_of : ⦃b : Buf⦄ → SubscribePayload → Bytes
wire_of ⦃b⦄ p =
    b.put 2 (length p.topic)
    ++ (p.topic
        ++ (b.put 1 (qos_byte p.qos (is_some p.group) (is_some p.from_offset))
            ++ (group_bytes p.group ++ put_offset p.from_offset)))

encode-wire_of :
    ⦃b : Buf⦄ (p : SubscribePayload)
    → length p.topic < 2 ^ 16
    → GroupFits p.group
    → encode p ≡ ok (wire_of p)
unfolding encode
encode-wire_of p ht hg =
    let (glen, e, w) = put_group_lem p.group hg in rw (u16_len-ok (length p.topic) ht, e, w) refl

decode-wire_of :
    ⦃b : Buf⦄ (p : SubscribePayload)
    → p.qos < 2 ^ 8
    → GroupFits p.group
    → OffsetFits p.from_offset
    → length p.topic < 2 ^ 16
    → IsUtf8 p.topic
    → decode (wire_of p) ≡ ok (record p { qos = bit_and p.qos 0x03 })
unfolding decode read_options
decode-wire_of ⦃b⦄ p hq hg ho ht hu =
    let E : Type 0 = FrameDecodeError in
    let n : ℕ = length p.topic in
    let q : ℕ = qos_byte p.qos (is_some p.group) (is_some p.from_offset) in
    let flags = flags_lem (is_some p.group) (is_some p.from_offset) p.qos hq in
    let tail : Bytes = group_bytes p.group ++ put_offset p.from_offset in
    let body : Bytes = p.topic ++ (b.put 1 q ++ tail) in
    ground (
      arith,
      flags,
      b.length-put 2 n,
      b.length-put 1 q,
      length-append (b.put 2 n) body,
      length-append p.topic (b.put 1 q ++ tail),
      length-append (b.put 1 q) tail,
      get_uint-put {E = E} 2 n body ht,
      copy_to_bytes-append {E = E} n p.topic (b.put 1 q ++ tail) refl,
      from_utf8-eq (bad_length (wire_of p)) p.topic hu,
      get_uint-put {E = E} 1 q tail flags.0,
      read_group-group_bytes (wire_of p) p.group (put_offset p.from_offset) hg,
      read_offset-put_offset (wire_of p) p.from_offset ho,
    )

-- Every payload whose fields fit their wire types and whose strings are UTF-8 is written, and is
-- read back with its qos masked to the two low bits.
pub subscribe_decode-encode :
    ⦃b : Buf⦄ (p : SubscribePayload)
    → p.qos < 2 ^ 8
    → GroupFits p.group
    → OffsetFits p.from_offset
    → length p.topic < 2 ^ 16
    → IsUtf8 p.topic
    → (wire : Bytes) × (encode p ≡ ok wire)
      × (decode wire ≡ ok (record p { qos = bit_and p.qos 0x03 }))
subscribe_decode-encode p hq hg ho ht hu =
    (wire_of p, encode-wire_of p ht hg, decode-wire_of p hq hg ho ht hu)
