-- ===== src/Core/Broker/Maintain.antt =====
-- core/src/lib.rs: `maintenance_tick` of `Broker`, which expires and retries in every queue and
-- publishes what was dropped to the topic of the dead letters; and `write_checkpoint_to` and
-- `load_checkpoint_from`, with the file system's answers as parameters.
pub mod Keeps
use blipmq.Prelude.{
  ℕ, ◌-◌, Bool, leb, List, [], ◌∷◌, ◌++◌, length, drop, Option, none, some, if◌then◌else◌, ◌&&◌,
  Outcome, ok, err, ◌>>=◌, ◌>>◌,
}
use blipmq.Wire.Buf.{Bytes, Buf}
use blipmq.Wire.Crc32.{Crc32}
use blipmq.Core.LogError.{LogError, io, at_most_once}
use blipmq.Core.Subject.{bytes_eq}
use blipmq.Core.TagMap.{get, modify}
use blipmq.Core.Queue.{DropReason}
use blipmq.Core.Queue.Maintenance
use blipmq.Core.Checkpoint
use blipmq.Core.Checkpoint.{CheckpointSnapshot}
use blipmq.Core.Config.{BrokerConfig}
use blipmq.Core.Subscriber.{Subscriber}
use blipmq.Core.Broker.{SubscriptionRef, Broker}
use blipmq.Core.Broker.PublishMethods.{publish}
use blipmq.Core.Broker.Ack.{current_snapshot}

pub ends_with : Bytes → Bytes → Bool
ends_with suffix name =
    leb (length suffix) (length name) && bytes_eq (drop (length name - length suffix) name) suffix

letters : Bytes → List (Bytes × DropReason) → List (Bytes × Bytes)
letters topic [] = []
letters topic ((payload, reason) ∷ dropped) = (topic, payload) ∷ letters topic dropped

-- A topic that is itself one of dead letters has none.
dead_letters : Option Bytes → Bytes → List (Bytes × DropReason) → List (Bytes × Bytes)
unfolding letters
dead_letters none topic dropped = []
dead_letters (some suffix) topic dropped =
    if ends_with suffix topic then [] else letters (topic ++ suffix) dropped

-- The walk over the subscriptions: their subscribers, and what was dropped by topic.
tick_all :
    BrokerConfig
    → ℕ
    → List (ℕ × SubscriptionRef)
    → List (ℕ × Subscriber)
    → List (ℕ × Subscriber) × List (Bytes × Bytes)
unfolding dead_letters
tick_all c now [] store = (store, [])
tick_all c now ((id, r) ∷ rs) store = elim (get id store) [
  | none ↦ tick_all c now rs store
  | some s ↦
      let (q, dropped) = Maintenance.maintenance_tick now c.max_retries s.queue in
      let (store, rest) = tick_all c now rs (modify id (λ s. record s { queue = q }) store) in
      (store, dead_letters c.dlq_suffix r.topic dropped ++ rest)
]

publish_all : (Bytes → ℕ) → ℕ → List (Bytes × Bytes) → Broker → Broker
publish_all hash clock [] b = b
publish_all hash clock ((topic, payload) ∷ ls) b =
    publish_all hash clock ls (publish hash clock topic payload at_most_once b)

-- `now` is the caller's time, and `clock` the time at which the dead letters are published.
pub maintenance_tick : (Bytes → ℕ) → ℕ → ℕ → Broker → Broker
unfolding tick_all publish_all
maintenance_tick hash clock now b =
    let (store, to_dlq) = tick_all b.config now b.subscriptions b.store in
    publish_all hash clock to_dlq (record b { store = store })

-- The file system's answers: creating the parent directory, if the path has one, writing the file
-- beside the checkpoint, and renaming it.
pub write_checkpoint_to :
    ⦃w : Buf⦄ ⦃h : Crc32⦄
    → Bool
    → Outcome LogError (Unit {0})
    → (Bytes → Outcome LogError (Unit {0}))
    → Outcome LogError (Unit {0})
    → Broker
    → Outcome LogError (Unit {0})
write_checkpoint_to has_parent create_dir_all write rename b = do
  bytes ← Checkpoint.encode (current_snapshot b)
  if has_parent then create_dir_all else ok tt
  write bytes
  rename

-- What reading a file gives.
pub data FileRead : Type 0 where
  contents : Bytes → FileRead
  not_found failed : FileRead

pub load_checkpoint_from :
    ⦃w : Buf⦄ ⦃h : Crc32⦄ → FileRead → Outcome LogError (Option CheckpointSnapshot)
load_checkpoint_from (contents bytes) = do snapshot ← Checkpoint.decode bytes; ok (some snapshot)
load_checkpoint_from not_found = ok none
load_checkpoint_from failed = err io
