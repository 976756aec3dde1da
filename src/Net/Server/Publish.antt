-- ===== src/Net/Server/Publish.antt =====
-- net/src/server.rs: the two handlers of a PUBLISH frame, `handle_publish_fast` and `handle_publish`.
pub mod Total
pub mod Routes
use blipmq.Prelude.{
  ℕ, ◌*◌, Bool, false, Option, none, some, is_some, ◌++◌, if◌then◌else◌, Outcome, ok, err, panic,
  ◌>>=◌,
}
use blipmq.Wire.Buf.{Bytes, Buf}
use blipmq.Wire.Text.{literal}
use blipmq.Core.LogError.{
  LogError, io, writer_stopped, backpressure, invalid_config, corruption, QosLevel, at_most_once,
  at_least_once,
}
use blipmq.Core.Broker.{Broker, resolve_topic}
use blipmq.Core.Broker.PublishMethods.{
  publish, publish_with_ttl, publish_with_key, publish_resolved, publish_resolved_with_ttl,
  publish_resolved_with_options, publish_durable,
}
use blipmq.Net.Error.{Error, ErrorKind}
use blipmq.Net.Frame.{Frame}
use blipmq.Net.Payload.Publish.{PublishPayload}
use blipmq.Net.Payload.Publish as PublishCodec
use blipmq.Net.Server.{World, Handled, nothing, make_nack, nacked, checked, decoded}
use blipmq.Net.Server.Cache.{PublishTopicCache, get_with_resolve}

unfoldable pub is_durable : QosLevel → Broker → Bool
is_durable at_most_once b = false
is_durable at_least_once b = b.wal

-- `Duration::from_millis`, in nanoseconds.
unfoldable pub ttl_override : Option ℕ → Option ℕ
ttl_override none = none
ttl_override (some ms) = some (ms * 1000000)

-- The broker and the cache afterwards, and the result. A NACK is `some` frame.
abbrev pub FastHandled : Type 0
FastHandled = Broker × PublishTopicCache × Outcome Error (Option Frame)

refuse_fast : ⦃w : Buf⦄ → Broker → PublishTopicCache → ℕ → ℕ → Bytes → FastHandled
refuse_fast b cache correlation_id code reason =
    (b, cache, (do nack ← make_nack correlation_id code reason; ok (some nack)))

-- The call of the broker for each shape of the options.
unfoldable pub dispatch :
    World → Bytes → Option Bytes → Bytes → QosLevel → Option ℕ → Option Bytes → Broker → Broker
dispatch world topic (some r) message qos (some ttl) none b =
    publish_resolved_with_ttl world.hash world.now topic r message qos (some ttl) b
dispatch world topic (some r) message qos none none b =
    publish_resolved world.hash world.now topic r message qos b
dispatch world topic (some r) message qos ttl (some key) b =
    publish_resolved_with_options world.hash world.now topic r message qos ttl (some key) b
dispatch world topic none message qos ttl key b =
    publish_with_key world.hash world.now topic message qos ttl key b

publish_fast : World → PublishPayload → Broker → PublishTopicCache → QosLevel → FastHandled
publish_fast world p b cache qos =
    if is_durable qos b
    then (b, cache, err (Error.io ErrorKind.unsupported))
    else (let (cache', topic, resolved) =
          get_with_resolve cache p.topic (λ name. resolve_topic name b) in
        (
          dispatch world topic resolved p.message qos (ttl_override p.ttl_ms) p.partition_key b,
          cache',
          ok none,
        ))

pub handle_publish_fast : ⦃w : Buf⦄ → World → Frame → Broker → PublishTopicCache → FastHandled
unfolding refuse_fast publish_fast
handle_publish_fast world frame b cache =
    decoded (PublishCodec.decode frame.payload)
      (refuse_fast b cache frame.correlation_id 400 (literal "invalid PUBLISH payload"))
      (b, cache, panic)
      λ p.
        checked (refuse_fast b cache frame.correlation_id) p.topic p.qos
          (publish_fast world p b cache)

-- The code and the label of the NACK for a publish that the log refused.
code_of : LogError → ℕ
code_of (backpressure _) = 503
code_of writer_stopped = 503
code_of io = 500
code_of (invalid_config _) = 500
code_of (corruption _) = 500

label_of : LogError → Bytes
label_of (backpressure _) = literal "wal_busy"
label_of writer_stopped = literal "wal_writer_stopped"
label_of io = literal "durable_publish_failed"
label_of (invalid_config _) = literal "durable_publish_failed"
label_of (corruption _) = literal "durable_publish_failed"

unfoldable pub durable_response : ⦃w : Buf⦄ → World → ℕ → Broker × Outcome LogError ℕ → Handled
unfolding code_of label_of
durable_response world correlation_id (b, ok id) = (b, ok nothing)
durable_response world correlation_id (b, err e) =
    (b, nacked correlation_id (code_of e) (label_of e ++ (literal ": " ++ world.display e)))
durable_response world correlation_id (b, panic) = (b, panic)

publish_async : ⦃w : Buf⦄ → World → ℕ → PublishPayload → Broker → QosLevel → Handled
unfolding durable_response
publish_async world correlation_id p b qos =
    if is_durable qos b
    then durable_response world correlation_id
        (publish_durable world.append world.hash world.now p.topic p.message qos b)
    else if is_some p.partition_key
    then (
      publish_with_key world.hash world.now p.topic p.message qos (ttl_override p.ttl_ms)
          p.partition_key b,
      ok nothing,
    )
    else if is_some (ttl_override p.ttl_ms)
    then (
      publish_with_ttl world.hash world.now p.topic p.message qos (ttl_override p.ttl_ms) b,
      ok nothing,
    )
    else (publish world.hash world.now p.topic p.message qos b, ok nothing)

pub handle_publish : ⦃w : Buf⦄ → World → Frame → Broker → Handled
unfolding publish_async
handle_publish world frame b =
    decoded (PublishCodec.decode frame.payload)
      (b, nacked frame.correlation_id 400 (literal "invalid PUBLISH payload")) (b, panic)
      λ p.
        checked (λ code reason. (b, nacked frame.correlation_id code reason)) p.topic p.qos
          (publish_async world frame.correlation_id p b)
