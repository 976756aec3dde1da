-- ===== src/Net/Connection/Reader.antt =====
-- net/src/connection.rs: the state of the reader of a connection, the frames that it sends to the
-- writer, and the login: `handle_hello` and `handle_auth`. `validate` is the `ApiKeyValidator`.
use Prim.Native.Nat.{min}
use blipmq.Prelude.{
  ℕ, ◌+◌, ◌-◌, ◌*◌, ◌^◌, Bool, true, false, not, ◌==◌, leb, List, [], ◌∷◌, ◌++◌, if◌then◌else◌,
  Outcome, ok, err, panic, ◌>>=◌,
}
use blipmq.Wire.Buf.{Bytes, Buf}
use blipmq.Wire.Text.{literal}
use blipmq.Core.Subscriber.{PushSlot}
use blipmq.Net.Error.{Error, broken_pipe, permission_denied, encoded}
use blipmq.Net.Frame.{Frame, FrameType, FrameDecodeError}
use blipmq.Net.Payload.Hello.{HelloPayload}
use blipmq.Net.Payload.Hello as HelloCodec
use blipmq.Net.Payload.Auth.{AuthPayload}
use blipmq.Net.Payload.Auth as AuthCodec
use blipmq.Net.Payload.Ack as AckCodec
use blipmq.Net.Server.{make_nack}
use blipmq.Net.Server.Cache.{PublishTopicCache, empty_cache}

abbrev pub max_auth_failures : ℕ
max_auth_failures = 5

abbrev pub protocol_version : ℕ
protocol_version = 2

-- `inband` is what was sent to the writer, `slept_ms` how long the reader slept.
pub record ReaderState : Type 0 where
  pub id : ℕ
  pub push_slot : PushSlot
  pub inband : List Frame
  pub read_buf : Bytes
  pub hello_performed : Bool
  pub authenticated : Bool
  pub auth_failures : ℕ
  pub topic_cache : PublishTopicCache
  pub slept_ms : ℕ

unfoldable pub new : ℕ → PushSlot → ReaderState
new id push_slot = record {
  id = id;
  push_slot = push_slot;
  inband = [];
  read_buf = [];
  hello_performed = false;
  authenticated = false;
  auth_failures = 0;
  topic_cache = empty_cache;
  slept_ms = 0;
}

abbrev pub Done : Type 0
Done = Outcome Error (Unit {0})

unfoldable pub send_inband : Bool → Frame → ReaderState → ReaderState × Done
send_inband writer_open frame r =
    if writer_open
    then (record r { inband = r.inband ++ (frame ∷ []) }, ok tt)
    else (r, err (Error.io broken_pipe))

-- `encode()?` in front of `send_inband`.
unfoldable pub send_encoded : Bool → Outcome Error Frame → ReaderState → ReaderState × Done
unfolding send_inband
send_encoded writer_open (ok frame) r = send_inband writer_open frame r
send_encoded writer_open (err e) r = (r, err e)
send_encoded writer_open panic r = (r, panic)

unfoldable pub ack_frame : ⦃w : Buf⦄ → ℕ → Outcome Error Frame
ack_frame correlation_id = do
  payload ← encoded (AckCodec.encode (record { subscription_id = 0 }))
  ok (record { msg_type = FrameType.ack; correlation_id = correlation_id; payload = payload })

unfoldable pub send_ack : ⦃w : Buf⦄ → Bool → ℕ → ReaderState → ReaderState × Done
unfolding send_encoded ack_frame
send_ack writer_open correlation_id r = send_encoded writer_open (ack_frame correlation_id) r

unfoldable pub send_nack : ⦃w : Buf⦄ → Bool → ℕ → ℕ → Bytes → ReaderState → ReaderState × Done
unfolding send_encoded
send_nack writer_open correlation_id code message r =
    send_encoded writer_open (make_nack correlation_id code message) r

-- `match HelloPayload::decode(&frame.payload)`
unfoldable pub hello_decoded :
    ⦃w : Buf⦄ → Bool → ℕ → ReaderState → Outcome FrameDecodeError HelloPayload → ReaderState × Done
unfolding send_ack send_nack
hello_decoded writer_open correlation_id r (ok p) =
    if not (p.protocol_version == protocol_version)
    then send_nack writer_open correlation_id 426 (literal "unsupported protocol version") r
    else send_ack writer_open correlation_id (record r { hello_performed = true })
hello_decoded writer_open correlation_id r (err _) =
    send_nack writer_open correlation_id 400 (literal "invalid HELLO payload") r
hello_decoded writer_open correlation_id r panic = (r, panic)

unfoldable pub handle_hello : ⦃w : Buf⦄ → Bool → Frame → ReaderState → ReaderState × Done
unfolding hello_decoded send_nack
handle_hello writer_open f r =
    if r.hello_performed
    then send_nack writer_open f.correlation_id 400 (literal "HELLO already performed") r
    else hello_decoded writer_open f.correlation_id r (HelloCodec.decode f.payload)

-- `base_ms.saturating_mul(1u64 << (auth_failures.min(5) - 1).min(4)).min(1000)`
unfoldable pub backoff_ms : ℕ → ℕ
backoff_ms auth_failures = min (min (50 * 2 ^ min (min auth_failures 5 - 1) 4) (2 ^ 64 - 1)) 1000

-- The count of failures goes up, and the reader sleeps.
unfoldable pub back_off : ReaderState → ReaderState
unfolding backoff_ms
back_off r =
    let failures = min (r.auth_failures + 1) (2 ^ 32 - 1) in
    record r { auth_failures = failures; slept_ms = r.slept_ms + backoff_ms failures }

-- The hard cap, behind the NACK.
unfoldable pub cap_failures : ReaderState × Done → ReaderState × Done
cap_failures (r, ok _) =
    if leb max_auth_failures r.auth_failures
    then (r, err (Error.io permission_denied))
    else (r, ok tt)
cap_failures (r, err e) = (r, err e)
cap_failures (r, panic) = (r, panic)

-- The answer to an API key.
unfoldable pub try_key :
    ⦃w : Buf⦄ → (Bytes → Bool) → Bool → ℕ → Bytes → ReaderState → ReaderState × Done
unfolding send_ack send_nack back_off cap_failures
try_key validate writer_open correlation_id api_key r =
    if validate api_key
    then send_ack writer_open correlation_id (record r { authenticated = true; auth_failures = 0 })
    else cap_failures
        (send_nack writer_open correlation_id 401 (literal "invalid API key") (back_off r))

-- `match AuthPayload::decode(&frame.payload)`
unfoldable pub auth_decoded :
    ⦃w : Buf⦄
    → (Bytes → Bool)
    → Bool
    → ℕ
    → ReaderState
    → Outcome FrameDecodeError AuthPayload
    → ReaderState × Done
unfolding try_key
auth_decoded validate writer_open correlation_id r (ok p) =
    try_key validate writer_open correlation_id p.api_key r
auth_decoded validate writer_open correlation_id r (err _) =
    send_nack writer_open correlation_id 400 (literal "invalid AUTH payload") r
auth_decoded validate writer_open correlation_id r panic = (r, panic)

unfoldable pub handle_auth :
    ⦃w : Buf⦄ → (Bytes → Bool) → Bool → Frame → ReaderState → ReaderState × Done
unfolding auth_decoded send_nack
handle_auth validate writer_open f r =
    if not r.hello_performed
    then send_nack writer_open f.correlation_id 400 (literal "HELLO not performed") r
    else if r.authenticated
    then send_nack writer_open f.correlation_id 400 (literal "already authenticated") r
    else auth_decoded validate writer_open f.correlation_id r (AuthCodec.decode f.payload)
