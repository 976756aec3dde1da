-- ===== src/Net/Payload/Hello.antt =====
-- `HelloPayload` of net/src/frame.rs.
use blipmq.Prelude.{
  [], ℕ, ◌^◌, ◌<◌, ◌≡◌, arith, ◌==◌, not, length, append-nil, Outcome, ok, ◌>>=◌, ◌>>◌, reject_if,
}
use blipmq.Wire.Buf.{Bytes, Buf}
use blipmq.Wire.Cursor.{get_uint, get_uint-put}
use blipmq.Net.Frame.{FrameDecodeError}
use blipmq.Net.Payload.Common.{bad_length}

pub record HelloPayload : Type 0 where
  pub protocol_version : ℕ

unfoldable pub encode : ⦃b : Buf⦄ → HelloPayload → Bytes
encode ⦃b⦄ p = b.put 2 p.protocol_version

unfoldable pub decode : ⦃b : Buf⦄ → Bytes → Outcome FrameDecodeError HelloPayload
decode payload = do
  reject_if (not (length payload == 2)) (bad_length payload)
  (version, _) ← get_uint 2 payload
  ok (record { protocol_version = version })

-- A `u16` version is read back as it was written.
pub hello_decode-encode :
    ⦃b : Buf⦄ (p : HelloPayload) → p.protocol_version < 2 ^ 16 → decode (encode p) ≡ ok p
unfolding decode encode
hello_decode-encode ⦃b⦄ p h = ground (
  arith,
  b.length-put 2 p.protocol_version,
  append-nil (b.put 2 p.protocol_version),
  get_uint-put {E = FrameDecodeError} 2 p.protocol_version [] h,
)
