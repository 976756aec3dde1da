-- ===== src/Net/Server/Publish/Total.antt =====
-- The PUBLISH handlers of net/src/server.rs on any frame.
use blipmq.Prelude.{ℕ, is_some, if-holds, Outcome, ok, err, panic, Returns, Returns-bind}
use blipmq.Wire.Buf.{Bytes, Buf}
use blipmq.Core.LogError.{LogError}
use blipmq.Core.Broker.{Broker}
use blipmq.Core.Broker.PublishMethods.Durable.{publish_durable-Returns}
use blipmq.Net.Frame.{Frame}
use blipmq.Net.Payload.Publish.{PublishPayload}
use blipmq.Net.Payload.Publish as PublishCodec
use blipmq.Net.Payload.Publish.Total as PublishTotal
use blipmq.Net.Server.{World, Handled}
use blipmq.Net.Server.Cache.{PublishTopicCache}
use blipmq.Net.Server.Total.{
  IsCalm, make_nack-Returns, nacked-Returns, checked-holds, decoded-holds,
}
use blipmq.Net.Server.Publish.{
  FastHandled, is_durable, refuse_fast, publish_fast, handle_publish_fast, durable_response,
  publish_async, handle_publish, ttl_override,
}

abbrev Fine : FastHandled → Type 0
Fine out = Returns out.2

refuse_fast-Returns :
    ⦃w : Buf⦄ (b : Broker) (cache : PublishTopicCache) (correlation_id code : ℕ) (reason : Bytes)
    → Fine (refuse_fast b cache correlation_id code reason)
unfolding refuse_fast
refuse_fast-Returns b cache correlation_id code reason =
    Returns-bind _ _ (make_nack-Returns correlation_id code reason) (λ nack _. tt)

pub handle_publish_fast-Returns :
    ⦃w : Buf⦄ (world : World) (f : Frame) (b : Broker) (cache : PublishTopicCache)
    → Fine (handle_publish_fast world f b cache)
unfolding handle_publish_fast publish_fast
handle_publish_fast-Returns world f b cache =
    decoded-holds Fine (PublishCodec.decode f.payload) _ _ _ (PublishTotal.decode-Returns f.payload)
      (refuse_fast-Returns b cache f.correlation_id 400 _)
      λ p _.
        checked-holds Fine _ p.topic p.qos _ (refuse_fast-Returns b cache f.correlation_id)
          λ qos. if-holds Fine (is_durable qos b) _ _ (λ _. tt) (λ _. tt)

abbrev Answers : Handled → Type 0
Answers out = Returns out.1

durable_response-Returns :
    ⦃w : Buf⦄ (world : World) (correlation_id : ℕ) (b : Broker) (o : Outcome LogError ℕ)
    → Returns o
    → Answers (durable_response world correlation_id (b, o))
unfolding durable_response
durable_response-Returns world correlation_id b (ok id) h = tt
durable_response-Returns world correlation_id b (err e) h = nacked-Returns correlation_id _ _
durable_response-Returns world correlation_id b panic h = h

pub handle_publish-Returns :
    ⦃w : Buf⦄ (world : World) (f : Frame) (b : Broker)
    → IsCalm world
    → Answers (handle_publish world f b)
unfolding handle_publish publish_async
handle_publish-Returns world f b calm =
    decoded-holds Answers (PublishCodec.decode f.payload) _ _ _
      (PublishTotal.decode-Returns f.payload) (nacked-Returns f.correlation_id 400 _)
      λ p _. checked-holds Answers _ p.topic p.qos _ (nacked-Returns f.correlation_id) λ qos.
        if-holds Answers (is_durable qos b) _ _
          (λ _. durable_response-Returns world f.correlation_id _ _ (
            publish_durable-Returns world.append world.hash world.now p.topic p.message qos b
              (λ bytes. calm.append-Returns bytes b)))
          λ _.
            if-holds Answers (is_some p.partition_key) _ _ (λ _. tt)
              λ _. if-holds Answers (is_some (ttl_override p.ttl_ms)) _ _ (λ _. tt) (λ _. tt)
