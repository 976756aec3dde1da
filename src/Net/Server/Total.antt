-- ===== src/Net/Server/Total.antt =====
-- What the handlers of net/src/server.rs share, on any frame and any topic.
use blipmq.Prelude.{ℕ, ◌≡◌, refl, arith, Option-cases, inl, inr, Outcome, ok, err, panic, Returns}
use blipmq.Wire.Buf.{Bytes, Buf}
use blipmq.Core.LogError.{QosLevel}
use blipmq.Core.Broker.{Broker}
use blipmq.Net.Error.{encoded}
use blipmq.Net.Frame.{FrameDecodeError, FrameEncodeError}
use blipmq.Net.Payload.Common.{u16_len}
use blipmq.Net.Payload.Nack
use blipmq.Net.Payload.Ack
use blipmq.Net.Server.{
  World, make_nack, nacked, acked, checked, decoded, validate_topic, qos_from_u8,
}

-- The log's calls return.
pub record IsCalm (world : World) : Type 0 where
  pub append-Returns : (bytes : Bytes) (b : Broker) → Returns (world.append bytes b).1
  pub iterate-Returns : (id : ℕ) → Returns (world.iterate id)

pub make_nack-Returns :
    ⦃w : Buf⦄ (correlation_id code : ℕ) (message : Bytes)
    → Returns (make_nack correlation_id code message)
unfolding make_nack Nack.encode u16_len
make_nack-Returns correlation_id code message = ground arith

pub nacked-Returns :
    ⦃w : Buf⦄ (correlation_id code : ℕ) (message : Bytes)
    → Returns (nacked correlation_id code message)
unfolding nacked make_nack Nack.encode u16_len
nacked-Returns correlation_id code message = ground arith

pub acked-Returns : ⦃w : Buf⦄ (correlation_id sub_id : ℕ) → Returns (acked correlation_id sub_id)
unfolding acked Ack.encode
acked-Returns correlation_id sub_id = tt

-- What holds of the answer to a refusal and of the rest holds of a handler.
pub checked-holds {ℓ} :
    {A : Type ℓ} (P : A → Type 0) (refuse : ℕ → Bytes → A) (topic : Bytes) (qos : ℕ)
    (rest : QosLevel → A)
    → ((code : ℕ) (reason : Bytes) → P (refuse code reason))
    → ((level : QosLevel) → P (rest level))
    → P (checked refuse topic qos rest)
unfolding checked
checked-holds P refuse topic qos rest f g = elim (Option-cases (validate_topic topic)) [
  | inr (reason, e) ↦ rw (e, checked) (f 400 reason)
  | inl fine ↦ elim (Option-cases (qos_from_u8 qos)) [
    | inl unknown ↦ rw (fine, unknown, checked) (f 400 _)
    | inr (level, e) ↦ rw (fine, e, checked) (g level)
  ]
]

pub decoded-holds {ℓ} :
    {A : Type 0} {R : Type ℓ} (P : R → Type 0) (o : Outcome FrameDecodeError A)
    (refused panicked : R) (rest : A → R)
    → Returns o
    → P refused
    → ((a : A) → o ≡ ok a → P (rest a))
    → P (decoded o refused panicked rest)
unfolding decoded
decoded-holds P (ok a) refused panicked rest h f g = g a refl
decoded-holds P (err e) refused panicked rest h f g = f
decoded-holds P panic refused panicked rest h f g = absurd h

pub encoded-Returns {ℓ} :
    {A : Type ℓ} (o : Outcome FrameEncodeError A) → Returns o → Returns (encoded o)
encoded-Returns (ok a) h = tt
encoded-Returns (err e) h = tt
encoded-Returns panic h = h
