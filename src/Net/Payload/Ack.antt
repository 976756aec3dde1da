-- ===== src/Net/Payload/Ack.antt =====
-- `AckPayload` of net/src/frame.rs.
use blipmq.Prelude.{
  ℕ, ◌<◌, ◌≡◌, ◌^◌, refl, arith, [], append-nil, ◌==◌, not, length, Outcome, ok, ◌>>=◌, ◌>>◌,
  reject_if,
}
use blipmq.Wire.Buf.{Bytes, Buf}
use blipmq.Wire.Cursor.{get_uint, get_uint-put}
use blipmq.Net.Frame.{FrameDecodeError, FrameEncodeError}
use blipmq.Net.Payload.Common.{bad_length}

pub record AckPayload : Type 0 where
  pub subscription_id : ℕ

unfoldable pub encode : ⦃b : Buf⦄ → AckPayload → Outcome FrameEncodeError Bytes
encode ⦃b⦄ p = ok (b.put 8 p.subscription_id)

unfoldable pub decode : ⦃b : Buf⦄ → Bytes → Outcome FrameDecodeError AckPayload
decode payload = do
  reject_if (not (length payload == 8)) (bad_length payload)
  (subscription_id, _) ← get_uint 8 payload
  ok (record { subscription_id = subscription_id })

-- A `u64` subscription id is read back as it was written.
pub ack_decode-encode :
    ⦃b : Buf⦄ (p : AckPayload)
    → p.subscription_id < 2 ^ 64
    → (wire : Bytes) × (encode p ≡ ok wire) × (decode wire ≡ ok p)
unfolding decode encode
ack_decode-encode ⦃b⦄ p h =
    let n : ℕ = p.subscription_id in
    (
      b.put 8 n,
      refl,
      ground (
        arith,
        b.length-put 8 n,
        append-nil (b.put 8 n),
        get_uint-put {E = FrameDecodeError} 8 n [] h,
      ),
    )
