-- ===== src/Core/Broker/Maintain/Keeps.antt =====
-- `maintenance_tick` of `Broker` in core/src/lib.rs keeps the registry.
use blipmq.Prelude.{ℕ, List, [], ◌∷◌}
use blipmq.Wire.Buf.{Bytes}
use blipmq.Core.LogError.{at_most_once}
use blipmq.Core.Broker.{Broker}
use blipmq.Core.Broker.Registry.{IsRegistry, store-IsRegistry}
use blipmq.Core.Broker.PublishMethods.{publish}
use blipmq.Core.Broker.PublishMethods.Keeps.{publish-IsRegistry}
use blipmq.Core.Broker.Maintain.{tick_all, publish_all, maintenance_tick}

publish_all-IsRegistry :
    (hash : Bytes → ℕ) (clock : ℕ) (ls : List (Bytes × Bytes)) (b : Broker)
    → IsRegistry b
    → IsRegistry (publish_all hash clock ls b)
unfolding publish_all
publish_all-IsRegistry hash clock [] b v = v
publish_all-IsRegistry hash clock ((topic, payload) ∷ ls) b v =
    publish_all-IsRegistry hash clock ls (publish hash clock topic payload at_most_once b)
      (publish-IsRegistry hash clock topic payload at_most_once b v)

pub maintenance_tick-IsRegistry :
    (hash : Bytes → ℕ) (clock now : ℕ) (b : Broker)
    → IsRegistry b
    → IsRegistry (maintenance_tick hash clock now b)
unfolding maintenance_tick
maintenance_tick-IsRegistry hash clock now b v =
    let ticked = tick_all b.config now b.subscriptions b.store in
    publish_all-IsRegistry hash clock ticked.1 (record b { store = ticked.0 })
      (store-IsRegistry b ticked.0 v)
