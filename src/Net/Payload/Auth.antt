-- ===== src/Net/Payload/Auth.antt =====
-- `AuthPayload` of net/src/frame.rs.
use blipmq.Prelude.{
  ℕ, ◌^◌, ◌<◌, ◌≡◌, refl, arith, ltb, ◌==◌, not, ◌++◌, [], length, append-nil, Outcome, ok, ◌>>=◌,
  ◌>>◌, reject_if, length-append,
}
use blipmq.Wire.Buf.{Bytes, Buf}
use blipmq.Wire.Cursor.{get_uint, get_uint-put, copy_to_bytes, copy_to_bytes-append}
use blipmq.Wire.Utf8.{IsUtf8, from_utf8, from_utf8-eq}
use blipmq.Net.Frame.{FrameDecodeError, FrameEncodeError}
use blipmq.Net.Payload.Common.{bad_length, u16_len, u16_len-ok}

pub record AuthPayload : Type 0 where
  pub api_key : Bytes

unfoldable pub encode : ⦃b : Buf⦄ → AuthPayload → Outcome FrameEncodeError Bytes
encode ⦃b⦄ p = do key_len_u16 ← u16_len (length p.api_key); ok (b.put 2 key_len_u16 ++ p.api_key)

unfoldable pub decode : ⦃b : Buf⦄ → Bytes → Outcome FrameDecodeError AuthPayload
decode payload = do
  reject_if (ltb (length payload) 2) (bad_length payload)
  (key_len, s) ← get_uint 2 payload
  reject_if (not (length s == key_len)) (bad_length payload)
  (key_bytes, _) ← copy_to_bytes key_len s
  api_key ← from_utf8 (bad_length payload) key_bytes
  ok (record { api_key = api_key })

-- An API key that is UTF-8 and fits its length field is written and read back.
pub auth_decode-encode :
    ⦃b : Buf⦄ (p : AuthPayload)
    → length p.api_key < 2 ^ 16
    → IsUtf8 p.api_key
    → (wire : Bytes) × (encode p ≡ ok wire) × (decode wire ≡ ok p)
unfolding decode encode
auth_decode-encode ⦃b⦄ p h u =
    let n : ℕ = length p.api_key in
    let E : Type 0 = FrameDecodeError in
    (
      b.put 2 n ++ p.api_key,
      rw (u16_len-ok n h) refl,
      ground (
        arith,
        b.length-put 2 n,
        length-append (b.put 2 n) p.api_key,
        get_uint-put {E = E} 2 n p.api_key h,
        append-nil p.api_key,
        copy_to_bytes-append {E = E} n p.api_key [] refl,
        from_utf8-eq (bad_length (b.put 2 n ++ p.api_key)) p.api_key u,
      ),
    )
