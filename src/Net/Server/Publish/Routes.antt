-- ===== src/Net/Server/Publish/Routes.antt =====
-- net/src/server.rs: which call of the broker a PUBLISH frame ends in, on the fast path and behind it.
use blipmq.Prelude.{
  ℕ, ◌≡◌, refl, ap, ◌∙◌, true, false, Option, none, some, if-true, if-false, Outcome, ok, err,
}
use blipmq.Wire.Buf.{Bytes, Buf}
use blipmq.Core.LogError.{QosLevel}
use blipmq.Core.Broker.{Broker, resolve_topic}
use blipmq.Core.Broker.Publish.{publish_inner}
use blipmq.Core.Broker.Publish.Keeps.{resolve_topic-cases, publish_inner-handle}
use blipmq.Core.Broker.PublishMethods.{
  publish, publish_with_ttl, publish_with_key, publish_resolved, publish_resolved_with_ttl,
  publish_resolved_with_options, publish_durable,
}
use blipmq.Net.Error.{Error, ErrorKind}
use blipmq.Net.Frame.{Frame, FrameDecodeError}
use blipmq.Net.Payload.Publish.{PublishPayload}
use blipmq.Net.Payload.Publish as PublishCodec
use blipmq.Net.Server.{World, nothing, nacked, decoded, checked, validate_topic, qos_from_u8}
use blipmq.Net.Server.Cache.{PublishTopicCache, get_with_resolve}
use blipmq.Net.Server.Cache.Coherent.{IsCoherent, get_with_resolve-Right}
use blipmq.Net.Server.Publish.{
  FastHandled, is_durable, ttl_override, dispatch, publish_fast, handle_publish_fast, publish_async,
  handle_publish, durable_response, refuse_fast,
}

-- The message of a payload as one publish.
abbrev pub published : World → PublishPayload → QosLevel → Broker → Broker
published world p qos b =
    publish_inner world.hash world.now p.topic none p.message qos none (ttl_override p.ttl_ms)
      p.partition_key b

dispatch-inner :
    (world : World) (topic : Bytes) (handle : Option Bytes) (message : Bytes) (qos : QosLevel)
    (ttl : Option ℕ) (key : Option Bytes) (b : Broker)
    → dispatch world topic handle message qos ttl key b
      ≡ publish_inner world.hash world.now topic handle message qos none ttl key b
unfolding dispatch publish_resolved publish_resolved_with_ttl publish_resolved_with_options
    publish_with_key
dispatch-inner world topic (some r) message qos (some ttl) none b = refl
dispatch-inner world topic (some r) message qos none none b = refl
dispatch-inner world topic (some r) message qos ttl (some key) b = refl
dispatch-inner world topic none message qos ttl key b = refl

async_publish-inner :
    ⦃w : Buf⦄ (world : World) (correlation_id : ℕ) (p : PublishPayload) (b : Broker)
    (qos : QosLevel) (ttl_ms : Option ℕ) (key : Option Bytes)
    → ttl_override p.ttl_ms ≡ ttl_ms
    → p.partition_key ≡ key
    → is_durable qos b ≡ false
    → publish_async world correlation_id p b qos ≡ (published world p qos b, ok nothing)
unfolding publish_async publish publish_with_ttl publish_with_key
async_publish-inner world correlation_id p b qos ttl (some k) et ek e = rw (e, et, ek) refl
async_publish-inner world correlation_id p b qos (some t) none et ek e = rw (e, et, ek) refl
async_publish-inner world correlation_id p b qos none none et ek e = rw (e, et, ek) refl

checked-accepted {ℓ} :
    {A : Type ℓ} (refuse : ℕ → Bytes → A) (topic : Bytes) (qos : ℕ) (level : QosLevel)
    (rest : QosLevel → A)
    → validate_topic topic ≡ none
    → qos_from_u8 qos ≡ some level
    → checked refuse topic qos rest ≡ rest level
unfolding checked
checked-accepted refuse topic qos level rest fine e = rw (fine, e, checked) refl

decoded-accepted {ℓ} :
    {A : Type 0} {R : Type ℓ} (o : Outcome FrameDecodeError A) (a : A) (refused panicked : R)
    (rest : A → R)
    → o ≡ ok a
    → decoded o refused panicked rest ≡ rest a
unfolding decoded
decoded-accepted o a refused panicked rest e = rw (e, decoded) refl

module _ ⦃w : Buf⦄ (world : World) (f : Frame) (b : Broker) (p : PublishPayload) (qos : QosLevel)
    (read : PublishCodec.decode f.payload ≡ ok p) (fine : validate_topic p.topic ≡ none)
    (level : qos_from_u8 p.qos ≡ some qos) where
  accepted {ℓ} :
      {A : Type ℓ} (refused panicked : A) (refuse : PublishPayload → ℕ → Bytes → A)
      (rest : PublishPayload → QosLevel → A)
      → decoded
          (PublishCodec.decode f.payload)
          refused
          panicked
          (λ p. checked (refuse p) p.topic p.qos (rest p))
        ≡ rest p qos
  accepted refused panicked refuse rest =
      decoded-accepted (PublishCodec.decode f.payload) p refused panicked _ read
      ∙ checked-accepted (refuse p) p.topic p.qos qos (rest p) fine level

  abbrev pub fast : PublishTopicCache → FastHandled
  fast cache = handle_publish_fast world f b cache

  -- The fast path leaves a durable publish to the path behind it, and does every other one.
  pub handle_publish_fast-durable :
      (cache : PublishTopicCache)
      → is_durable qos b ≡ true
      → fast cache ≡ (b, cache, err (Error.io ErrorKind.unsupported))
  unfolding handle_publish_fast publish_fast
  handle_publish_fast-durable cache d =
      accepted _ _ (λ _. refuse_fast b cache f.correlation_id)
        (λ p qos. publish_fast world p b cache qos)
      ∙ if-true (is_durable qos b) _ _ d

  pub handle_publish_fast-published :
      (cache : PublishTopicCache)
      → IsCoherent cache
      → is_durable qos b ≡ false
      → (cache' : PublishTopicCache) × IsCoherent cache'
        × (fast cache ≡ (published world p qos b, cache', ok none))
  unfolding handle_publish_fast publish_fast
  handle_publish_fast-published cache v d =
      let out = get_with_resolve cache p.topic (λ name. resolve_topic name b) in
      let (v', topic, handle) =
        get_with_resolve-Right cache p.topic (λ name. resolve_topic name b) v
          (resolve_topic-cases p.topic b) in
      (
        out.0,
        v',
        accepted _ _ (λ _. refuse_fast b cache f.correlation_id)
              (λ p qos. publish_fast world p b cache qos)
            ∙ if-false (is_durable qos b) _ _ d
            ∙ ap (λ (c : Broker). (c, out.0, ok none))
                (dispatch-inner world out.1 out.2 p.message qos (ttl_override p.ttl_ms)
                    p.partition_key b
                  ∙ ap
                      (λ (t : Bytes).
                        publish_inner world.hash world.now t out.2 p.message qos none
                          (ttl_override p.ttl_ms) p.partition_key b)
                      topic
                  ∙ publish_inner-handle world.hash world.now p.topic out.2 p.message qos none
                      (ttl_override p.ttl_ms) p.partition_key b handle),
      )

  pub handle_publish-durable :
      is_durable qos b ≡ true
      → handle_publish world f b
        ≡ durable_response world f.correlation_id
            (publish_durable world.append world.hash world.now p.topic p.message qos b)
  unfolding handle_publish publish_async
  handle_publish-durable d =
      accepted _ _ (λ _ code reason. (b, nacked f.correlation_id code reason))
        (λ p qos. publish_async world f.correlation_id p b qos)
      ∙ if-true (is_durable qos b) _ _ d

  -- The path behind the fast one ends in the same publish, should it be taken.
  pub handle_publish-published :
      is_durable qos b ≡ false → handle_publish world f b ≡ (published world p qos b, ok nothing)
  unfolding handle_publish
  handle_publish-published d =
      accepted _ _ (λ _ code reason. (b, nacked f.correlation_id code reason))
        (λ p qos. publish_async world f.correlation_id p b qos)
      ∙ async_publish-inner world f.correlation_id p b qos (ttl_override p.ttl_ms) p.partition_key
          refl refl d
