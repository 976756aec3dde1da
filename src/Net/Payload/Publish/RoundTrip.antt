-- ===== src/Net/Payload/Publish/RoundTrip.antt =====
-- `PublishPayload::decode` after `encode`, and on arbitrary bytes.
use blipmq.Prelude.{
  ℕ, ◌+◌, ◌^◌, ◌<◌, ◌≤◌, ◌≡◌, refl, arith, Bool, Option, none, some, is_some, ◌++◌, [], length, ok,
  bit_and, append_assoc, length-append, append-nil,
}
use blipmq.Wire.Buf.{Bytes, Buf}
use blipmq.Wire.Cursor.{get_uint-put, advance-append, slice-append}
use blipmq.Wire.Utf8.{IsUtf8}
use blipmq.Net.Frame.{FrameDecodeError}
use blipmq.Net.Payload.Flags.{ReadsBack, flag_byte-ReadsBack}
use blipmq.Net.Payload.Common.{u16_len-ok}
use blipmq.Net.Payload.Publish.{
  PublishPayload, key_len_u16, qos_byte, put_ttl, put_key, encode, read_ttl, read_key, read_body,
  decode,
}

flags_lem :
    (high low : Bool) (qos : ℕ) → qos < 2 ^ 8 → ReadsBack qos high low (qos_byte qos high low)
unfolding qos_byte
flags_lem = flag_byte-ReadsBack

abbrev pub TtlFits : Option ℕ → Type 0
TtlFits none = Unit
TtlFits (some ttl) = ttl < 2 ^ 32

read_ttl-put_ttl :
    ⦃b : Buf⦄ (payload : Bytes) (ttl : Option ℕ) (rest : Bytes)
    → TtlFits ttl
    → read_ttl payload (is_some ttl) (put_ttl ttl ++ rest) 1
      ≡ ok (ttl, rest, 1 + length (put_ttl ttl))
unfolding read_ttl put_ttl
read_ttl-put_ttl payload none rest h = refl
read_ttl-put_ttl ⦃b⦄ payload (some ttl) rest h =
    rw (get_uint-put {E = FrameDecodeError} 4 ttl rest h)
      (ground (arith, b.length-put 4 ttl, length-append (b.put 4 ttl) rest))

-- The key as `encode` writes it.
abbrev key_bytes : ⦃b : Buf⦄ → Option Bytes → Bytes
key_bytes none = []
key_bytes ⦃b⦄ (some key) = b.put 2 (length key) ++ key

abbrev pub KeyFits : Option Bytes → Type 0
KeyFits none = Unit
KeyFits (some key) = length key < 2 ^ 16

read_key-key_bytes :
    ⦃b : Buf⦄ (payload front : Bytes) (key : Option Bytes) (rest : Bytes) (h : ℕ)
    → payload ≡ front ++ (key_bytes key ++ rest)
    → length front ≡ h
    → KeyFits key
    → read_key payload (is_some key) (key_bytes key ++ rest) h
      ≡ ok (key, rest, h + length (key_bytes key))
unfolding read_key
read_key-key_bytes payload front none rest h e len fits = ground arith
read_key-key_bytes ⦃b⦄ payload front (some key) rest h e len fits =
    let E : Type 0 = FrameDecodeError in
    let n : ℕ = length key in
    let lp : length (b.put 2 n) ≡ 2 = b.length-put 2 n in
    ground (
      arith,
      append_assoc (b.put 2 n) key rest,
      append_assoc front (b.put 2 n) (key ++ rest),
      lp,
      length-append (b.put 2 n) (key ++ rest),
      length-append (b.put 2 n) key,
      length-append key rest,
      length-append front (b.put 2 n),
      get_uint-put {E = E} 2 n (key ++ rest) fits,
      slice-append {E = E} payload (front ++ b.put 2 n) key rest (h + 2) (h + 2 + n),
      advance-append {E = E} n key rest refl,
    )

-- The payload that `encode` writes.
abbrev wire_of : ⦃b : Buf⦄ → PublishPayload → Bytes
wire_of ⦃b⦄ p =
    b.put 1 (qos_byte p.qos (is_some p.ttl_ms) (is_some p.partition_key))
    ++ (put_ttl p.ttl_ms
        ++ (key_bytes p.partition_key ++ (b.put 2 (length p.topic) ++ (p.topic ++ p.message))))

put_key_lem :
    ⦃b : Buf⦄ (key : Option Bytes)
    → KeyFits key
    → (klen : Option ℕ) × (key_len_u16 key ≡ ok klen) × (put_key key klen ≡ key_bytes key)
unfolding key_len_u16 put_key
put_key_lem none h = (none, refl, refl)
put_key_lem (some key) h = (some (length key), rw (u16_len-ok (length key) h) refl, refl)

encode-wire_of :
    ⦃b : Buf⦄ (p : PublishPayload)
    → length p.topic < 2 ^ 16
    → KeyFits p.partition_key
    → encode p ≡ ok (wire_of p)
unfolding encode
encode-wire_of p ht hk =
    let (klen, e, w) = put_key_lem p.partition_key hk in
    rw (u16_len-ok (length p.topic) ht, e, w) refl

read_body-wire :
    ⦃b : Buf⦄ (p : PublishPayload) (payload front : Bytes) (qos h : ℕ)
    → payload ≡ front ++ (b.put 2 (length p.topic) ++ (p.topic ++ p.message))
    → length front ≡ h
    → length p.topic < 2 ^ 16
    → IsUtf8 p.topic
    → read_body payload qos p.ttl_ms p.partition_key
        (b.put 2 (length p.topic) ++ (p.topic ++ p.message))
        h
      ≡ ok (record p { qos = qos })
unfolding read_body
read_body-wire ⦃b⦄ p payload front qos h e len ht hu =
    let E : Type 0 = FrameDecodeError in
    let n : ℕ = length p.topic in
    let lp : length (b.put 2 n) ≡ 2 = b.length-put 2 n in
    let front' : Bytes = front ++ b.put 2 n in
    ground (
      arith,
      append_assoc front (b.put 2 n) (p.topic ++ p.message),
      append_assoc front' p.topic p.message,
      append-nil p.message,
      lp,
      length-append (b.put 2 n) (p.topic ++ p.message),
      length-append p.topic p.message,
      length-append front (b.put 2 n ++ (p.topic ++ p.message)),
      length-append front (b.put 2 n),
      length-append front' p.topic,
      get_uint-put {E = E} 2 n (p.topic ++ p.message) ht,
      slice-append {E = E} payload front' p.topic p.message (h + 2) (h + 2 + n),
      slice-append {E = E} payload (front' ++ p.topic) p.message [] (h + 2 + n) (length payload),
    )

length-wire_of : ⦃b : Buf⦄ (p : PublishPayload) → 3 ≤ length (wire_of p)
length-wire_of ⦃b⦄ p =
    let body : Bytes = b.put 2 (length p.topic) ++ (p.topic ++ p.message) in
    let q : ℕ = qos_byte p.qos (is_some p.ttl_ms) (is_some p.partition_key) in
    omega (
      arith,
      b.length-put 1 q,
      b.length-put 2 (length p.topic),
      length-append (b.put 1 q) (put_ttl p.ttl_ms ++ (key_bytes p.partition_key ++ body)),
      length-append (put_ttl p.ttl_ms) (key_bytes p.partition_key ++ body),
      length-append (key_bytes p.partition_key) body,
      length-append (b.put 2 (length p.topic)) (p.topic ++ p.message),
    )

decode-wire_of :
    ⦃b : Buf⦄ (p : PublishPayload)
    → p.qos < 2 ^ 8
    → TtlFits p.ttl_ms
    → KeyFits p.partition_key
    → length p.topic < 2 ^ 16
    → IsUtf8 p.topic
    → decode (wire_of p) ≡ ok (record p { qos = bit_and p.qos 0x03 })
unfolding decode
decode-wire_of ⦃b⦄ p hq hl hk ht hu =
    let E : Type 0 = FrameDecodeError in
    let q : ℕ = qos_byte p.qos (is_some p.ttl_ms) (is_some p.partition_key) in
    let flags = flags_lem (is_some p.ttl_ms) (is_some p.partition_key) p.qos hq in
    let body : Bytes = b.put 2 (length p.topic) ++ (p.topic ++ p.message) in
    let keyed : Bytes = key_bytes p.partition_key ++ body in
    let timed : Bytes = put_ttl p.ttl_ms ++ keyed in
    let front : Bytes = b.put 1 q ++ put_ttl p.ttl_ms in
    let front' : Bytes = front ++ key_bytes p.partition_key in
    ground (
      arith,
      length-wire_of p,
      flags,
      get_uint-put {E = E} 1 q timed flags.0,
      read_ttl-put_ttl (wire_of p) p.ttl_ms keyed hl,
      b.length-put 1 q,
      append_assoc (b.put 1 q) (put_ttl p.ttl_ms) keyed,
      append_assoc front (key_bytes p.partition_key) body,
      length-append (b.put 1 q) (put_ttl p.ttl_ms),
      length-append front (key_bytes p.partition_key),
      read_key-key_bytes (wire_of p) front p.partition_key body (1 + length (put_ttl p.ttl_ms)),
      read_body-wire p (wire_of p) front' (bit_and p.qos 3)
          (1 + length (put_ttl p.ttl_ms) + length (key_bytes p.partition_key)),
    )

-- Every payload whose fields fit their wire types and whose topic is UTF-8 is written, and is
-- read back with its qos masked to the two low bits.
pub publish_decode-encode :
    ⦃b : Buf⦄ (p : PublishPayload)
    → p.qos < 2 ^ 8
    → TtlFits p.ttl_ms
    → KeyFits p.partition_key
    → length p.topic < 2 ^ 16
    → IsUtf8 p.topic
    → (wire : Bytes) × (encode p ≡ ok wire)
      × (decode wire ≡ ok (record p { qos = bit_and p.qos 0x03 }))
publish_decode-encode p hq hl hk ht hu =
    (wire_of p, encode-wire_of p ht hk, decode-wire_of p hq hl hk ht hu)
