-- ===== src/Core/Broker/PublishMethods/Keeps.antt =====
-- The `publish` methods of core/src/lib.rs keep the registry.
use blipmq.Prelude.{ℕ, not, Outcome, ok, err, panic, if-holds, none, some}
use blipmq.Wire.Buf.{Bytes, Buf}
use blipmq.Core.LogError.{LogError, QosLevel}
use blipmq.Core.Broker.{Broker}
use blipmq.Core.Broker.Registry.{IsRegistry}
use blipmq.Core.Broker.PublishMethods.{publish, logged, written, publish_durable}
use blipmq.Core.Broker.Publish.Keeps.{publish_inner-IsRegistry}

pub publish-IsRegistry :
    (hash : Bytes → ℕ) (now : ℕ) (topic payload : Bytes) (qos : QosLevel) (b : Broker)
    → IsRegistry b
    → IsRegistry (publish hash now topic payload qos b)
unfolding publish
publish-IsRegistry hash now topic payload qos b v =
    publish_inner-IsRegistry hash now topic none payload qos none none none b v

logged-IsRegistry :
    (hash : Bytes → ℕ) (now : ℕ) (topic payload : Bytes) (qos : QosLevel)
    (answered : Broker × Outcome LogError ℕ)
    → IsRegistry answered.0
    → IsRegistry (logged hash now topic payload qos answered).0
unfolding logged
logged-IsRegistry hash now topic payload qos (b, ok wal_id) v =
    publish_inner-IsRegistry hash now topic none payload qos (some wal_id) none none b v
logged-IsRegistry hash now topic payload qos (b, err e) v = v
logged-IsRegistry hash now topic payload qos (b, panic) v = v

written-IsRegistry :
    (append : Bytes → Broker → Broker × Outcome LogError ℕ) (b : Broker)
    (o : Outcome LogError Bytes)
    → ((bytes : Bytes) → IsRegistry (append bytes b).0)
    → IsRegistry b
    → IsRegistry (written append b o).0
unfolding written
written-IsRegistry append b (ok bytes) others v = others bytes
written-IsRegistry append b (err e) others v = v
written-IsRegistry append b panic others v = v

-- As long as the others keep it during the await.
pub publish_durable-IsRegistry :
    ⦃w : Buf⦄ (append : Bytes → Broker → Broker × Outcome LogError ℕ) (hash : Bytes → ℕ) (now : ℕ)
    (topic payload : Bytes) (qos : QosLevel) (b : Broker)
    → ((bytes : Bytes) → IsRegistry (append bytes b).0)
    → IsRegistry b
    → IsRegistry (publish_durable append hash now topic payload qos b).0
unfolding publish_durable
publish_durable-IsRegistry append hash now topic payload qos b others v =
    if-holds (λ (r : Broker × Outcome LogError ℕ). IsRegistry r.0) b.shutting_down _ _ (λ _. v)
      (λ _.
        if-holds (λ (r : Broker × Outcome LogError ℕ). IsRegistry r.0) (not b.wal) _ _ (λ _. v)
          (λ _.
            logged-IsRegistry hash now topic payload qos _
              (written-IsRegistry append b _ others v)))
