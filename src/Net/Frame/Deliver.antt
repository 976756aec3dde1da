-- ===== src/Net/Frame/Deliver.antt =====
-- The writer's one-pass encoder of DELIVER frames against `DeliverPayload::encode` followed by
-- `encode_frame`, whose intermediate buffer it avoids.
use blipmq.Prelude.{ℕ, ◌+◌, ◌≡◌, arith, ◌++◌, length, length-append, Outcome, ok, err, panic, ◌>>=◌}
use blipmq.Wire.Buf.{Bytes, Buf}
use blipmq.Net.Frame.{FrameEncodeError, deliver, encode_frame, encode_deliver_frame}
use blipmq.Net.Payload.Common.{u16_len}
use blipmq.Net.Payload.Deliver.{DeliverPayload}
use blipmq.Net.Payload.Deliver

-- The two-step way: the payload first, then the frame around it, with the tag as correlation id.
unfoldable pub deliver_in_two_steps :
    ⦃b : Buf⦄ → DeliverPayload → Bytes → Outcome FrameEncodeError Bytes
deliver_in_two_steps p dst = do
  payload ← Deliver.encode p
  encode_frame (record { msg_type = deliver; correlation_id = p.delivery_tag; payload = payload })
      dst

-- The same bytes, or a failure of both. The two failures may state different sizes.
abbrev pub Agree : Outcome FrameEncodeError Bytes → Outcome FrameEncodeError Bytes → Type 0
Agree (ok x) (ok y) = x ≡ y
Agree (err d) (err e) = Unit
Agree panic panic = Unit
Agree _ _ = ⊥

length-payload :
    ⦃b : Buf⦄ (p : DeliverPayload)
    → length (
        b.put 1 p.qos
        ++ (b.put 8 p.delivery_tag ++ (b.put 2 (length p.topic) ++ (p.topic ++ p.message))))
      ≡ 11 + length p.topic + length p.message
length-payload ⦃b⦄ p =
    let body : Bytes = p.topic ++ p.message in
    let n : ℕ = length p.topic in
    omega (
      arith,
      b.length-put 1 p.qos,
      b.length-put 8 p.delivery_tag,
      b.length-put 2 n,
      length-append (b.put 1 p.qos) (b.put 8 p.delivery_tag ++ (b.put 2 n ++ body)),
      length-append (b.put 8 p.delivery_tag) (b.put 2 n ++ body),
      length-append (b.put 2 n) body,
      length-append p.topic p.message,
    )

-- The fast encoder appends the same bytes as the two steps, and fails exactly when they fail.
pub encode_deliver_frame-Agree :
    ⦃b : Buf⦄ (p : DeliverPayload) (dst : Bytes)
    → Agree
        (encode_deliver_frame dst p.qos p.delivery_tag p.topic p.message)
        (deliver_in_two_steps p dst)
unfolding encode_deliver_frame deliver_in_two_steps Deliver.encode u16_len encode_frame
encode_deliver_frame-Agree p dst = ground (arith, length-payload p)
