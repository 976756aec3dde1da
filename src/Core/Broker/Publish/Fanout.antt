-- ===== src/Core/Broker/Publish/Fanout.antt =====
-- Who is given a message by `publish_inner` of core/src/lib.rs, subscriber by subscriber.
use mathlib.Core.Option
use blipmq.Prelude.{ℕ, suc, ◌==◌, List, [], ◌∷◌, Option, none, some, if◌then◌else◌}
use blipmq.Wire.Buf.{Bytes}
use blipmq.Core.LogError.{QosLevel}
use blipmq.Core.TagMap.{get, modify}
use blipmq.Core.Config.{BrokerConfig}
use blipmq.Core.Subscriber.{Subscriber, Buffers, Publication, deliver_to}
use blipmq.Core.Broker.{Broker}
use blipmq.Core.Broker.Publish.{Fan, or_default}

-- How often an id stands in a snapshot.
abbrev pub occurrences : ℕ → List ℕ → ℕ
occurrences id [] = 0
occurrences id (x ∷ xs) = let n = occurrences id xs in if x == id then suc n else n

-- A subscriber after one delivery for each state of the shared buffers that a delivery met.
abbrev pub after_deliveries : ℕ → ℕ → Publication → List Buffers → Subscriber → Subscriber
after_deliveries cap id m [] s = s
after_deliveries cap id m (buffers ∷ met) s =
    after_deliveries cap id m met (deliver_to cap id m buffers s).0

-- The store and the shared buffers after one target.
abbrev pub Shared : Type 0
Shared = List (ℕ × Subscriber) × Buffers

abbrev pub delivery_to : ℕ → Publication → ℕ → Option Subscriber → Shared → Shared
delivery_to cap m id none shared = shared
delivery_to cap m id (some s) (store, buffers) =
    let out = deliver_to cap id m buffers s in (modify id (λ _. out.0) store, out.1)

abbrev pub one_delivery : ℕ → Publication → ℕ → Shared → Shared
one_delivery cap m id shared = delivery_to cap m id (get id shared.0) shared

-- The shared buffers as the deliveries to an id meet them, each behind the deliveries to the targets
-- before it.
abbrev pub buffers_met : ℕ → Publication → ℕ → List ℕ → Shared → List Buffers
buffers_met cap m j [] shared = []
buffers_met cap m j (id ∷ ids) shared =
    let rest = buffers_met cap m j ids (one_delivery cap m id shared) in
    if id == j then shared.1 ∷ rest else rest

module _ (c : BrokerConfig) (m : Publication) where
  abbrev after : ℕ → List Buffers → Subscriber → Subscriber
  after id met s = after_deliveries c.slow_consumer_buffer_bytes id m met s

  abbrev met_by : ℕ → List ℕ → Shared → List Buffers
  met_by j ids shared = buffers_met c.slow_consumer_buffer_bytes m j ids shared

  abbrev shared_of : Fan → Shared
  shared_of f = (f.store, f.buffers)

-- The message as it is handed to the subscribers.
abbrev pub published : ℕ → Bytes → Bytes → QosLevel → Option ℕ → Option ℕ → Broker → Publication
published now topic payload qos wal_id ttl_override b = record {
  topic = topic;
  payload = payload;
  qos = qos;
  wal_id = wal_id;
  ttl = or_default b.config.message_ttl ttl_override;
  now = now;
}
