-- ===== src/Net/Server/Subscribe/Total.antt =====
-- The SUBSCRIBE handlers of net/src/server.rs on any frame.
use blipmq.Prelude.{ℕ, ◌==◌, length, if-holds, Option, none, some, Outcome, ok, err, panic, Returns}
use blipmq.Wire.Buf.{Bytes, Buf}
use blipmq.Core.LogError.{LogError, QosLevel}
use blipmq.Core.Subscriber.{PushSlot}
use blipmq.Core.Broker.{Broker}
use blipmq.Core.Broker.OffsetReplay.Keeps.{replay_to_subscriber-Returns}
use blipmq.Net.Frame.{Frame}
use blipmq.Net.Payload.Subscribe.{SubscribePayload}
use blipmq.Net.Payload.Subscribe as SubscribeCodec
use blipmq.Net.Payload.Subscribe.Total as SubscribeTotal
use blipmq.Net.Server.{World, Handled}
use blipmq.Net.Server.Total.{IsCalm, nacked-Returns, acked-Returns, checked-holds, decoded-holds}
use blipmq.Net.Server.Subscribe.{
  answer, replay_from, subscribe_grouped, subscribe_slot, with_payload, handle_subscribe_slot,
  acknowledge, handle_subscribe, qos_level,
}

abbrev Answers : Handled → Type 0
Answers out = Returns out.1

answer-Returns :
    ⦃w : Buf⦄ (correlation_id sub_id : ℕ) (b : Broker) (o : Outcome LogError ℕ)
    → Returns o
    → Answers (answer correlation_id sub_id (b, o))
unfolding answer
answer-Returns correlation_id sub_id b (ok n) h = acked-Returns correlation_id sub_id
answer-Returns correlation_id sub_id b (err e) h = acked-Returns correlation_id sub_id
answer-Returns correlation_id sub_id b panic h = h

replay_from-Returns :
    ⦃w : Buf⦄ (world : World) (correlation_id : ℕ) (from_offset : Option ℕ) (b : Broker) (id : ℕ)
    → IsCalm world
    → Answers (replay_from world correlation_id from_offset (b, id))
unfolding replay_from
replay_from-Returns world correlation_id none b id calm = acked-Returns correlation_id id
replay_from-Returns world correlation_id (some offset) b id calm =
    answer-Returns correlation_id id _ _
      (replay_to_subscriber-Returns world.iterate world.now id offset b calm.iterate-Returns)

subscribe_grouped-Returns :
    ⦃w : Buf⦄ (world : World) (conn_id correlation_id : ℕ) (slot : PushSlot) (p : SubscribePayload)
    (b : Broker) (qos : QosLevel) (group : Option Bytes)
    → IsCalm world
    → Answers (subscribe_grouped world conn_id correlation_id slot p b qos group)
unfolding subscribe_grouped
subscribe_grouped-Returns world conn_id correlation_id slot p b qos none calm =
    replay_from-Returns world correlation_id p.from_offset _ _ calm
subscribe_grouped-Returns world conn_id correlation_id slot p b qos (some group) calm =
    if-holds Answers (length group == 0) _ _ (λ _. nacked-Returns correlation_id 400 _)
      (λ _. replay_from-Returns world correlation_id p.from_offset _ _ calm)

pub handle_subscribe_slot-Returns :
    ⦃w : Buf⦄ (world : World) (conn_id : ℕ) (f : Frame) (slot : PushSlot) (b : Broker)
    → IsCalm world
    → Answers (handle_subscribe_slot world conn_id f slot b)
unfolding handle_subscribe_slot with_payload subscribe_slot
handle_subscribe_slot-Returns world conn_id f slot b calm =
    decoded-holds Answers (SubscribeCodec.decode f.payload) _ _ _
      (SubscribeTotal.decode-Returns f.payload) (nacked-Returns f.correlation_id 400 _)
      λ p _.
        checked-holds Answers _ p.topic (qos_level p) _ (nacked-Returns f.correlation_id)
          λ qos. subscribe_grouped-Returns world conn_id f.correlation_id slot p b qos p.group calm

pub handle_subscribe-Returns :
    ⦃w : Buf⦄ (conn_id : ℕ) (f : Frame) (b : Broker) → Answers (handle_subscribe conn_id f b)
unfolding handle_subscribe with_payload acknowledge
handle_subscribe-Returns conn_id f b =
    decoded-holds Answers (SubscribeCodec.decode f.payload) _ _ _
      (SubscribeTotal.decode-Returns f.payload) (nacked-Returns f.correlation_id 400 _)
      λ p _.
        checked-holds Answers _ p.topic p.qos _ (nacked-Returns f.correlation_id)
          λ qos. acked-Returns f.correlation_id _
