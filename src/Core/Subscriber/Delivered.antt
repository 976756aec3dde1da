-- ===== src/Core/Subscriber/Delivered.antt =====
-- What a delivery of core/src/lib.rs leaves of a subscriber as it was.
use blipmq.Prelude.{ℕ, ◌≡◌, refl}
use blipmq.Core.LogError.{QosLevel, at_most_once, at_least_once}
use blipmq.Core.Subscriber.{Subscriber, Publication, register, deliver_poll}

pub register-client_id :
    (qos : QosLevel) (tag : ℕ) (m : Publication) (s : Subscriber)
    → (register qos tag m s).client_id ≡ s.client_id
unfolding register
register-client_id at_most_once tag m s = refl
register-client_id at_least_once tag m s = refl

pub deliver_poll-client_id :
    (m : Publication) (s : Subscriber) → (deliver_poll m s).0.client_id ≡ s.client_id
unfolding deliver_poll
deliver_poll-client_id m s = refl
