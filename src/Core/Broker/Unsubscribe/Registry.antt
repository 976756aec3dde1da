-- ===== src/Core/Broker/Unsubscribe/Registry.antt =====
-- The registry of the subscriptions of core/src/lib.rs after `unsubscribe_one`.
use blipmq.Prelude.{ℕ, ◌≡◌, arith}
use blipmq.Core.Broker.{Broker}
use blipmq.Core.Broker.Unsubscribe.{unsubscribe_one}

pub unsubscribe_one-store :
    (id : ℕ) (b : Broker)
    → ((unsubscribe_one id b).0.store ≡ b.store) × ((unsubscribe_one id b).0.config ≡ b.config)
unfolding unsubscribe_one
unsubscribe_one-store id b = ground arith
