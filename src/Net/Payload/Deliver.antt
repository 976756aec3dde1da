-- ===== src/Net/Payload/Deliver.antt =====
-- `DeliverPayload` of net/src/frame.rs.
use blipmq.Prelude.{
  ℕ, ◌+◌, ◌^◌, ◌<◌, ◌≡◌, refl, arith, ltb, ◌++◌, [], length, append-nil, Outcome, ok, ◌>>=◌, ◌>>◌,
  reject_if, length-append,
}
use blipmq.Wire.Buf.{Bytes, Buf}
use blipmq.Wire.Cursor.{get_uint, get_uint-put, copy_to_bytes, copy_to_bytes-append}
use blipmq.Wire.Utf8.{IsUtf8, from_utf8, from_utf8-eq}
use blipmq.Net.Frame.{FrameDecodeError, FrameEncodeError}
use blipmq.Net.Payload.Common.{bad_length, u16_len, u16_len-ok}

pub record DeliverPayload : Type 0 where
  pub qos : ℕ
  pub delivery_tag : ℕ
  pub topic : Bytes
  pub message : Bytes

unfoldable pub encode : ⦃b : Buf⦄ → DeliverPayload → Outcome FrameEncodeError Bytes
encode ⦃b⦄ p = do
  topic_len_u16 ← u16_len (length p.topic)
  ok (
      b.put 1 p.qos
      ++ (b.put 8 p.delivery_tag ++ (b.put 2 topic_len_u16 ++ (p.topic ++ p.message))))

unfoldable pub decode : ⦃b : Buf⦄ → Bytes → Outcome FrameDecodeError DeliverPayload
decode payload = do
  reject_if (ltb (length payload) (1 + 8 + 2)) (bad_length payload)
  (qos, s) ← get_uint 1 payload
  (delivery_tag, s) ← get_uint 8 s
  (topic_len, s) ← get_uint 2 s
  reject_if (ltb (length s) topic_len) (bad_length payload)
  (topic_bytes, s) ← copy_to_bytes topic_len s
  topic ← from_utf8 (bad_length payload) topic_bytes
  (message, _) ← copy_to_bytes (length s) s
  ok (record { qos = qos; delivery_tag = delivery_tag; topic = topic; message = message })

-- A delivery whose fields fit their wire types and whose topic is UTF-8 is written and read back.
deliver_decode-encode :
    ⦃b : Buf⦄ (p : DeliverPayload)
    → p.qos < 2 ^ 8
    → p.delivery_tag < 2 ^ 64
    → length p.topic < 2 ^ 16
    → IsUtf8 p.topic
    → (wire : Bytes) × (encode p ≡ ok wire) × (decode wire ≡ ok p)
unfolding decode encode
deliver_decode-encode ⦃b⦄ p hq ht h u =
    let n : ℕ = length p.topic in
    let E : Type 0 = FrameDecodeError in
    let body : Bytes = p.topic ++ p.message in
    let wire : Bytes = b.put 1 p.qos ++ (b.put 8 p.delivery_tag ++ (b.put 2 n ++ body)) in
    (
      wire,
      rw (u16_len-ok n h) refl,
      ground (
        arith,
        b.length-put 1 p.qos,
        b.length-put 8 p.delivery_tag,
        b.length-put 2 n,
        length-append (b.put 1 p.qos) (b.put 8 p.delivery_tag ++ (b.put 2 n ++ body)),
        length-append (b.put 8 p.delivery_tag) (b.put 2 n ++ body),
        length-append (b.put 2 n) body,
        length-append p.topic p.message,
        get_uint-put {E = E} 1 p.qos (b.put 8 p.delivery_tag ++ (b.put 2 n ++ body)) hq,
        get_uint-put {E = E} 8 p.delivery_tag (b.put 2 n ++ body) ht,
        get_uint-put {E = E} 2 n body h,
        append-nil p.message,
        copy_to_bytes-append {E = E} n p.topic p.message refl,
        copy_to_bytes-append {E = E} (length p.message) p.message [] refl,
        from_utf8-eq (bad_length wire) p.topic u,
      ),
    )
