-- ===== src/Net/Payload/Nack.antt =====
-- `NackPayload` of net/src/frame.rs.
use blipmq.Prelude.{
  ℕ, ◌^◌, ◌<◌, ◌≡◌, refl, arith, ltb, ◌==◌, not, ◌++◌, [], length, append-nil, Outcome, ok, ◌>>=◌,
  ◌>>◌, reject_if, length-append,
}
use blipmq.Wire.Buf.{Bytes, Buf}
use blipmq.Wire.Cursor.{get_uint, get_uint-put, copy_to_bytes, copy_to_bytes-append}
use blipmq.Wire.Utf8.{IsUtf8, from_utf8, from_utf8-eq}
use blipmq.Net.Frame.{FrameDecodeError, FrameEncodeError}
use blipmq.Net.Payload.Common.{bad_length, u16_len, u16_len-ok}

pub record NackPayload : Type 0 where
  pub code : ℕ
  pub message : Bytes

unfoldable pub encode : ⦃b : Buf⦄ → NackPayload → Outcome FrameEncodeError Bytes
encode ⦃b⦄ p = do
  msg_len_u16 ← u16_len (length p.message)
  ok (b.put 2 p.code ++ (b.put 2 msg_len_u16 ++ p.message))

unfoldable pub decode : ⦃b : Buf⦄ → Bytes → Outcome FrameDecodeError NackPayload
decode payload = do
  reject_if (ltb (length payload) 4) (bad_length payload)
  (code, s) ← get_uint 2 payload
  (msg_len, s) ← get_uint 2 s
  reject_if (not (length s == msg_len)) (bad_length payload)
  (msg_bytes, _) ← copy_to_bytes msg_len s
  message ← from_utf8 (bad_length payload) msg_bytes
  ok (record { code = code; message = message })

-- A refusal whose code is a `u16` and whose message is UTF-8 and fits its length field is written
-- and read back.
pub nack_decode-encode :
    ⦃b : Buf⦄ (p : NackPayload)
    → p.code < 2 ^ 16
    → length p.message < 2 ^ 16
    → IsUtf8 p.message
    → (wire : Bytes) × (encode p ≡ ok wire) × (decode wire ≡ ok p)
unfolding decode encode
nack_decode-encode ⦃b⦄ p hc h u =
    let n : ℕ = length p.message in
    let E : Type 0 = FrameDecodeError in
    let wire : Bytes = b.put 2 p.code ++ (b.put 2 n ++ p.message) in
    (
      wire,
      rw (u16_len-ok n h) refl,
      ground (
        arith,
        b.length-put 2 n,
        b.length-put 2 p.code,
        length-append (b.put 2 p.code) (b.put 2 n ++ p.message),
        length-append (b.put 2 n) p.message,
        get_uint-put {E = E} 2 p.code (b.put 2 n ++ p.message) hc,
        get_uint-put {E = E} 2 n p.message h,
        append-nil p.message,
        copy_to_bytes-append {E = E} n p.message [] refl,
        from_utf8-eq (bad_length wire) p.message u,
      ),
    )
