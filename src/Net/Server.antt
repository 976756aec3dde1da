-- ===== src/Net/Server.antt =====
-- net/src/server.rs, `BrokerHandler`: the checks and the answers that its handlers share. A handler
-- returns the broker and its result.
pub mod Cache
pub mod Publish
pub mod Subscribe
pub mod Handler
pub mod Total
use blipmq.Prelude.{
  ℕ, ◌-◌, ◌^◌, Bool, true, false, ◌||◌, ltb, ◌==◌, List, [], ◌∷◌, length, Option, none, some,
  if◌then◌else◌, Outcome, ok, err, panic, ◌>>=◌, bit_and,
}
use blipmq.Wire.Buf.{Bytes, Buf}
use blipmq.Wire.Text.{literal}
use blipmq.Core.LogError.{LogError, QosLevel, at_most_once, at_least_once}
use blipmq.Core.Broker.{Broker}
use blipmq.Wal.Record.{WalRecord}
use blipmq.Net.Error.{Error, encoded}
use blipmq.Net.Frame.{Frame, FrameType, FrameDecodeError}
use blipmq.Net.Payload.Nack
use blipmq.Net.Payload.Ack

pub data FrameResponse : Type 0 where
  nothing : FrameResponse
  frame : Frame → FrameResponse

-- What a handler is given by the rest of the program when it runs: the clock, the hash of a partition
-- key, `append_durable` of the log with the broker as it is when the log answers, `iterate_from`, and the
-- `Display` of the log's errors.
pub record World : Type 0 where
  pub now : ℕ
  pub hash : Bytes → ℕ
  pub append : Bytes → Broker → Broker × Outcome LogError ℕ
  pub iterate : ℕ → Outcome LogError (List WalRecord)
  pub display : LogError → Bytes

abbrev pub Handled : Type 0
Handled = Broker × Outcome Error FrameResponse

unfoldable pub qos_from_u8 : ℕ → Option QosLevel
qos_from_u8 v = if v == 0 then some at_most_once else if v == 1 then some at_least_once else none

-- `match qos`
unfoldable pub qos_to_u8 : QosLevel → ℕ
qos_to_u8 at_most_once = 0
qos_to_u8 at_least_once = 1

unfoldable pub has_nul : Bytes → Bool
has_nul [] = false
has_nul (b ∷ bs) = b == 0 || has_nul bs

-- The reason to refuse a topic.
unfoldable pub validate_topic : Bytes → Option Bytes
unfolding has_nul
validate_topic topic =
    if length topic == 0
    then some (literal "empty topic")
    else if ltb (2 ^ 16 - 1) (length topic)
    then some (literal "topic too long")
    else if has_nul topic
    then some (literal "topic contains NUL byte")
    else none

unfoldable pub make_nack : ⦃w : Buf⦄ → ℕ → ℕ → Bytes → Outcome Error Frame
make_nack correlation_id code message = do
  payload ← encoded (Nack.encode (record { code = code; message = message }))
  ok (record { msg_type = FrameType.nack; correlation_id = correlation_id; payload = payload })

-- `Ok(FrameResponse::Frame(self.make_nack(...)?))`
unfoldable pub nacked : ⦃w : Buf⦄ → ℕ → ℕ → Bytes → Outcome Error FrameResponse
unfolding make_nack
nacked correlation_id code message = do
  nack ← make_nack correlation_id code message
  ok (frame nack)

-- The ACK frame with the id of a subscription.
unfoldable pub acked : ⦃w : Buf⦄ → ℕ → ℕ → Outcome Error FrameResponse
acked correlation_id sub_id = do
  payload ← encoded (Ack.encode (record { subscription_id = sub_id }))
  ok (
      frame
        (record { msg_type = FrameType.ack; correlation_id = correlation_id; payload = payload }))

-- The guards on the topic and the quality of service, in front of the rest of a handler. `refuse`
-- answers a NACK with a code and a reason.
unfoldable pub checked {ℓ} : {A : Type ℓ} → (ℕ → Bytes → A) → Bytes → ℕ → (QosLevel → A) → A
checked refuse topic qos rest = elim (validate_topic topic) [
  | some reason ↦ refuse 400 reason
  | none ↦ elim (qos_from_u8 qos) [
    | none ↦ refuse 400 (literal "invalid QoS value")
    | some level ↦ rest level
  ]
]

-- `match` on the decoding of a payload: an answer to an error, and the rest for the payload.
unfoldable pub decoded {ℓ} :
    {A : Type 0} {R : Type ℓ} → Outcome FrameDecodeError A → R → R → (A → R) → R
decoded (ok a) refused panicked rest = rest a
decoded (err _) refused panicked rest = refused
decoded panic refused panicked rest = panicked
