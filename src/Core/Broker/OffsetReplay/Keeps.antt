-- ===== src/Core/Broker/OffsetReplay/Keeps.antt =====
-- `replay_to_subscriber` of core/src/lib.rs keeps the registry, and returns if the log does.
use blipmq.Prelude.{
  ℕ, not, if-holds, Option-cases, inl, inr, List, Outcome, ok, err, panic, Returns,
}
use blipmq.Wire.Buf.{Buf}
use blipmq.Core.LogError.{LogError}
use blipmq.Core.Subscriber.{Subscriber}
use blipmq.Core.Broker.{SubscriptionRef, Broker}
use blipmq.Core.Broker.Ack.{lookup_subscription}
use blipmq.Core.Broker.Registry.{IsRegistry, store-IsRegistry, buffers-IsRegistry}
use blipmq.Wal.Record.{WalRecord}
use blipmq.Core.Broker.OffsetReplay.{offer_all, replay_to_subscriber}

offer_all-IsRegistry :
    ⦃w : Buf⦄ (now id : ℕ) (r : SubscriptionRef) (s : Subscriber) (b : Broker)
    (read : Outcome LogError (List WalRecord))
    → IsRegistry b
    → IsRegistry (offer_all now id r s b read).0
unfolding offer_all
offer_all-IsRegistry now id r s b (ok records) v =
    buffers-IsRegistry (record b { store = _ }) _ (store-IsRegistry b _ v)
offer_all-IsRegistry now id r s b (err e) v = v
offer_all-IsRegistry now id r s b panic v = v

pub replay_to_subscriber-IsRegistry :
    ⦃w : Buf⦄ (iterate : ℕ → Outcome LogError (List WalRecord)) (now id from_offset : ℕ)
    (b : Broker)
    → IsRegistry b
    → IsRegistry (replay_to_subscriber iterate now id from_offset b).0
unfolding replay_to_subscriber
replay_to_subscriber-IsRegistry iterate now id from_offset b v =
    if-holds (λ (r : Broker × Outcome LogError ℕ). IsRegistry r.0) (not b.wal) _ _ (λ _. v)
      (λ _. elim (Option-cases (lookup_subscription id b)) [
        | inl absent ↦ rw absent v
        | inr ((r, s), e) ↦ rw e (offer_all-IsRegistry now id r s b _ v)
      ])

offer_all-Returns :
    ⦃w : Buf⦄ (now id : ℕ) (r : SubscriptionRef) (s : Subscriber) (b : Broker)
    (read : Outcome LogError (List WalRecord))
    → Returns read
    → Returns (offer_all now id r s b read).1
unfolding offer_all
offer_all-Returns now id r s b (ok records) h = tt
offer_all-Returns now id r s b (err e) h = tt
offer_all-Returns now id r s b panic h = h

pub replay_to_subscriber-Returns :
    ⦃w : Buf⦄ (iterate : ℕ → Outcome LogError (List WalRecord)) (now id from_offset : ℕ)
    (b : Broker)
    → ((from : ℕ) → Returns (iterate from))
    → Returns (replay_to_subscriber iterate now id from_offset b).1
unfolding replay_to_subscriber
replay_to_subscriber-Returns iterate now id from_offset b calm =
    if-holds (λ (r : Broker × Outcome LogError ℕ). Returns r.1) (not b.wal) _ _ (λ _. tt)
      (λ _. elim (Option-cases (lookup_subscription id b)) [
        | inl absent ↦ rw absent tt
        | inr ((r, s), e) ↦ rw e (offer_all-Returns now id r s b _ (calm _))
      ])
