-- ===== src/Net/Server/Handler.antt =====
-- net/src/server.rs: the handlers of ACK and POLL frames, the end of a connection, and the dispatch
-- of a frame in `handle_frame`.
pub mod Total
pub mod Routes
use blipmq.Prelude.{
  ℕ, ◌==◌, Bool, true, false, [], Option, none, some, if◌then◌else◌, Outcome, ok, err, panic, ◌>>=◌,
}
use blipmq.Wire.Buf.{Bytes, Buf}
use blipmq.Wire.Text.{literal}
use blipmq.Core.Broker.{Broker}
use blipmq.Core.Broker.Unsubscribe.{unsubscribe_connection}
use blipmq.Core.Broker.Ack.{PolledMessage, poll}
use blipmq.Core.Broker.Ack as BrokerAck
use blipmq.Net.Error.{Error, encoded}
use blipmq.Net.Frame.{Frame, FrameType}
use blipmq.Net.Payload.Ack as AckCodec
use blipmq.Net.Payload.Poll as PollCodec
use blipmq.Net.Payload.Publish as PublishCodec
use blipmq.Net.Server.{World, Handled, FrameResponse, nothing, frame, nacked, decoded, qos_to_u8}
use blipmq.Net.Server.Publish.{handle_publish}
use blipmq.Net.Server.Subscribe.{handle_subscribe}

known : ⦃w : Buf⦄ → ℕ → Broker × Bool × Option Bytes → Handled
known correlation_id (b, true, record_of_log) = (b, ok nothing)
known correlation_id (b, false, record_of_log) =
    (b, nacked correlation_id 404 (literal "unknown subscription or delivery tag"))

-- The delivery tag is the correlation id.
pub handle_ack : ⦃w : Buf⦄ → Frame → Broker → Handled
unfolding known
handle_ack f b =
    decoded (AckCodec.decode f.payload)
      (b, nacked f.correlation_id 400 (literal "invalid ACK payload")) (b, panic)
      λ p.
        if p.subscription_id == 0
        then (b, nacked f.correlation_id 400 (literal "subscription_id must be non-zero"))
        else known f.correlation_id (BrokerAck.ack p.subscription_id f.correlation_id b)

polled_id : ℕ → Option ℕ → ℕ
polled_id correlation_id none = correlation_id
polled_id correlation_id (some tag) = tag

-- The PUBLISH frame for a message that was polled.
polled_frame : ⦃w : Buf⦄ → ℕ → PolledMessage → Outcome Error FrameResponse
unfolding polled_id
polled_frame correlation_id m = do
  payload ← encoded (
      PublishCodec.encode (record {
        topic = m.topic;
        qos = qos_to_u8 m.qos;
        message = m.payload;
        ttl_ms = none;
        partition_key = none;
      }))
  ok (
      frame (record {
        msg_type = FrameType.publish;
        correlation_id = polled_id correlation_id m.delivery_tag;
        payload = payload;
      }))

polled : ⦃w : Buf⦄ → ℕ → Broker × Option PolledMessage → Handled
unfolding polled_frame
polled correlation_id (b, none) = (b, ok nothing)
polled correlation_id (b, some m) = (b, polled_frame correlation_id m)

pub handle_poll : ⦃w : Buf⦄ → World → Frame → Broker → Handled
unfolding polled
handle_poll world f b =
    decoded (PollCodec.decode f.payload)
      (b, nacked f.correlation_id 400 (literal "invalid POLL payload")) (b, panic)
      λ p.
        if p.subscription_id == 0
        then (b, nacked f.correlation_id 400 (literal "subscription_id must be non-zero"))
        else polled f.correlation_id (poll world.now p.subscription_id b)

by_type : ⦃w : Buf⦄ → World → ℕ → Frame → Broker → FrameType → Handled
by_type world conn_id f b FrameType.publish = handle_publish world f b
by_type world conn_id f b FrameType.subscribe = handle_subscribe conn_id f b
by_type world conn_id f b FrameType.ack = handle_ack f b
by_type world conn_id f b FrameType.ping = (
  b,
  ok (
      frame
        (record { msg_type = FrameType.pong; correlation_id = f.correlation_id; payload = [] })),
)
by_type world conn_id f b FrameType.poll = handle_poll world f b
by_type world conn_id f b FrameType.pong = (b, ok nothing)
by_type world conn_id f b FrameType.nack = (b, ok nothing)
by_type world conn_id f b FrameType.hello = (b, ok nothing)
by_type world conn_id f b FrameType.auth = (b, ok nothing)
by_type world conn_id f b FrameType.deliver = (b, ok nothing)

pub handle_frame : ⦃w : Buf⦄ → World → ℕ → Frame → Broker → Handled
unfolding by_type
handle_frame world conn_id f b = by_type world conn_id f b f.msg_type

pub handle_connection_close : ℕ → Broker → Broker
handle_connection_close conn_id b = unsubscribe_connection conn_id b
