-- ===== src/Net/Server/Handler/Total.antt =====
-- `handle_frame` of net/src/server.rs on any frame.
use blipmq.Prelude.{ℕ, ◌==◌, true, false, Bool, if-holds, Option, none, some, Returns, Returns-bind}
use blipmq.Wire.Buf.{Bytes, Buf}
use blipmq.Core.Broker.{Broker}
use blipmq.Core.Broker.Ack.{PolledMessage}
use blipmq.Net.Frame.{Frame, FrameType}
use blipmq.Net.Payload.Total.{decoders-Return}
use blipmq.Net.Payload.Ack as AckCodec
use blipmq.Net.Payload.Poll as PollCodec
use blipmq.Net.Payload.Publish.Total as PublishTotal
use blipmq.Net.Server.{World, Handled}
use blipmq.Net.Server.Total.{IsCalm, encoded-Returns, nacked-Returns, decoded-holds}
use blipmq.Net.Server.Publish.Total.{handle_publish-Returns}
use blipmq.Net.Server.Subscribe.Total.{handle_subscribe-Returns}
use blipmq.Net.Server.Handler.{
  known, polled_frame, polled, handle_ack, handle_poll, by_type, handle_frame,
}

abbrev Answers : Handled → Type 0
Answers out = Returns out.1

known-Returns :
    ⦃w : Buf⦄ (correlation_id : ℕ) (b : Broker) (found : Bool) (r : Option Bytes)
    → Answers (known correlation_id (b, found, r))
unfolding known
known-Returns correlation_id b true r = tt
known-Returns correlation_id b false r = nacked-Returns correlation_id 404 _

handle_ack-Returns : ⦃w : Buf⦄ (f : Frame) (b : Broker) → Answers (handle_ack f b)
unfolding handle_ack
handle_ack-Returns f b =
    decoded-holds Answers (AckCodec.decode f.payload) _ _ _ (decoders-Return f.payload).2
      (nacked-Returns f.correlation_id 400 _)
      λ p _.
        if-holds Answers (p.subscription_id == 0) _ _ (λ _. nacked-Returns f.correlation_id 400 _)
          (λ _. known-Returns f.correlation_id _ _ _)

polled-Returns :
    ⦃w : Buf⦄ (correlation_id : ℕ) (b : Broker) (o : Option PolledMessage)
    → Answers (polled correlation_id (b, o))
unfolding polled polled_frame
polled-Returns correlation_id b none = tt
polled-Returns correlation_id b (some m) =
    Returns-bind _ _ (encoded-Returns _ (PublishTotal.publish_encode-Returns _)) (λ payload _. tt)

handle_poll-Returns :
    ⦃w : Buf⦄ (world : World) (f : Frame) (b : Broker) → Answers (handle_poll world f b)
unfolding handle_poll
handle_poll-Returns world f b =
    decoded-holds Answers (PollCodec.decode f.payload) _ _ _ (decoders-Return f.payload).4
      (nacked-Returns f.correlation_id 400 _)
      λ p _.
        if-holds Answers (p.subscription_id == 0) _ _ (λ _. nacked-Returns f.correlation_id 400 _)
          (λ _. polled-Returns f.correlation_id _ _)

by_type-Returns :
    ⦃w : Buf⦄ (world : World) (conn_id : ℕ) (f : Frame) (b : Broker) (t : FrameType)
    → IsCalm world
    → Answers (by_type world conn_id f b t)
unfolding by_type
by_type-Returns world conn_id f b FrameType.publish calm = handle_publish-Returns world f b calm
by_type-Returns world conn_id f b FrameType.subscribe calm = handle_subscribe-Returns conn_id f b
by_type-Returns world conn_id f b FrameType.ack calm = handle_ack-Returns f b
by_type-Returns world conn_id f b FrameType.ping calm = tt
by_type-Returns world conn_id f b FrameType.poll calm = handle_poll-Returns world f b
by_type-Returns world conn_id f b FrameType.pong calm = tt
by_type-Returns world conn_id f b FrameType.nack calm = tt
by_type-Returns world conn_id f b FrameType.hello calm = tt
by_type-Returns world conn_id f b FrameType.auth calm = tt
by_type-Returns world conn_id f b FrameType.deliver calm = tt

pub handle_frame-Returns :
    ⦃w : Buf⦄ (world : World) (conn_id : ℕ) (f : Frame) (b : Broker)
    → IsCalm world
    → Answers (handle_frame world conn_id f b)
unfolding handle_frame
handle_frame-Returns world conn_id f b calm = by_type-Returns world conn_id f b f.msg_type calm
