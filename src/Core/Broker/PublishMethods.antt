-- ===== src/Core/Broker/PublishMethods.antt =====
-- core/src/lib.rs: the `publish` methods of `Broker`, which call `publish_inner`, and `publish_durable`.
pub mod Durable
pub mod Keeps
use blipmq.Prelude.{
  ℕ, zero, suc, ◌+◌, ◌%◌, ◌^◌, Bool, true, false, ltb, ◌==◌, List, [], ◌∷◌, ◌++◌, length, Option,
  none, some, if◌then◌else◌, not, Outcome, ok, err, panic,
}
use blipmq.Wire.Buf.{Bytes, Buf}
use blipmq.Core.LogError.{LogError, corruption, text, QosLevel}
use blipmq.Core.WalEntry
use blipmq.Core.WalEntry.{message}
use blipmq.Core.Subject.{SubjectPattern, matches}
use blipmq.Core.TagMap.{get, insert, modify}
use blipmq.Core.NameMap.{find, alter}
use blipmq.Core.Config.{BrokerConfig, SlowConsumerPolicy, drop_newest, drop_subscription}
use blipmq.Core.Subscriber.{Subscriber, Publication, Fate, delivered, dropped, deliver_to}
use blipmq.Core.Broker.{ConsumerGroup, Topic, SubscriptionRef, Broker, add}
use blipmq.Core.Broker.Unsubscribe.{unsubscribe_one}
use blipmq.Core.Broker.Publish.{publish_inner}

-- Every method is a call of `publish_inner`.
abbrev pub publish_with_wal_id :
    (Bytes → ℕ) → ℕ → Bytes → Bytes → QosLevel → Option ℕ → Option ℕ → Broker → Broker
publish_with_wal_id hash now topic payload qos wal_id ttl b =
    publish_inner hash now topic none payload qos wal_id ttl none b

unfoldable pub publish : (Bytes → ℕ) → ℕ → Bytes → Bytes → QosLevel → Broker → Broker
publish hash now topic payload qos b = publish_with_wal_id hash now topic payload qos none none b

unfoldable pub publish_with_ttl :
    (Bytes → ℕ) → ℕ → Bytes → Bytes → QosLevel → Option ℕ → Broker → Broker
publish_with_ttl hash now topic payload qos ttl b =
    publish_with_wal_id hash now topic payload qos none ttl b

unfoldable pub publish_with_key :
    (Bytes → ℕ) → ℕ → Bytes → Bytes → QosLevel → Option ℕ → Option Bytes → Broker → Broker
publish_with_key hash now topic payload qos ttl key b =
    publish_inner hash now topic none payload qos none ttl key b

unfoldable pub publish_resolved_with_options :
    (Bytes → ℕ) → ℕ → Bytes → Bytes → Bytes → QosLevel → Option ℕ → Option Bytes → Broker → Broker
publish_resolved_with_options hash now name resolved payload qos ttl key b =
    publish_inner hash now name (some resolved) payload qos none ttl key b

unfoldable pub publish_resolved_with_ttl :
    (Bytes → ℕ) → ℕ → Bytes → Bytes → Bytes → QosLevel → Option ℕ → Broker → Broker
publish_resolved_with_ttl hash now name resolved payload qos ttl b =
    publish_inner hash now name (some resolved) payload qos none ttl none b

unfoldable pub publish_resolved :
    (Bytes → ℕ) → ℕ → Bytes → Bytes → Bytes → QosLevel → Broker → Broker
publish_resolved hash now name resolved payload qos b =
    publish_inner hash now name (some resolved) payload qos none none none b

-- The end of `publish_durable`, with the broker and the answer once the log has answered.
logged :
    (Bytes → ℕ)
    → ℕ
    → Bytes
    → Bytes
    → QosLevel
    → Broker × Outcome LogError ℕ
    → Broker × Outcome LogError ℕ
logged hash now topic payload qos (b, ok wal_id) =
    (publish_with_wal_id hash now topic payload qos (some wal_id) none b, ok wal_id)
logged hash now topic payload qos (b, err e) = (b, err e)
logged hash now topic payload qos (b, panic) = (b, panic)

-- `entry.encode()?`, and the await of the log.
written :
    (Bytes → Broker → Broker × Outcome LogError ℕ)
    → Broker
    → Outcome LogError Bytes
    → Broker × Outcome LogError ℕ
written append b (ok encoded) = append encoded b
written append b (err e) = (b, err e)
written append b panic = (b, panic)

-- `append` is the log's `append_durable`, which is awaited: its answer, and the broker as the others have
-- left it by then.
pub publish_durable :
    ⦃w : Buf⦄
    → (Bytes → Broker → Broker × Outcome LogError ℕ)
    → (Bytes → ℕ)
    → ℕ
    → Bytes
    → Bytes
    → QosLevel
    → Broker
    → Broker × Outcome LogError ℕ
unfolding logged written
publish_durable append hash now topic payload qos b =
    if b.shutting_down
    then (b, err (corruption (text "write-ahead log not available: broker shutting down")))
    else if not b.wal
    then (b, err (corruption (text "write-ahead log not configured for broker")))
    else logged hash now topic payload qos (
        written append b
          (WalEntry.encode (message (record { topic = topic; qos = qos; payload = payload }))))
