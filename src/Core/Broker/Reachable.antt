-- ===== src/Core/Broker/Reachable.antt =====
-- The brokers of core/src/lib.rs that are reached from a new one by calls of its methods.
use blipmq.Prelude.{
  ℕ, ◌↔◌, ◌⊎◌, length, ◌+◌, ◌<◌, ◌^◌, ◌≡◌, refl, arith, inl, inr, Bool, All, List, Option, none,
  Outcome,
}
use blipmq.Wire.Buf.{Bytes, Buf}
use blipmq.Core.LogError.{LogError, QosLevel}
use blipmq.Core.Subject.{SubjectPattern}
use blipmq.Core.Checkpoint.{CheckpointSnapshot}
use blipmq.Core.Config.{BrokerConfig}
use blipmq.Core.TagMap.{get}
use blipmq.Core.Subscriber.{swap_buffer, PushSender, PushSlot}
use blipmq.Core.Broker.{Broker, new_broker, begin_shutdown, mark_ready}
use blipmq.Core.Broker.Registry.{IsRegistry, buffers-IsRegistry}
use blipmq.Core.Broker.Subscribe.{
  subscribe_inner_grouped, subscribe_pattern, subscribe_pattern_with_slot,
}
use blipmq.Core.Broker.Subscribe.Keeps.{
  subscribe_inner_grouped-IsRegistry, subscribe_pattern-IsRegistry,
  subscribe_pattern_with_slot-IsRegistry,
}
use blipmq.Core.Broker.Unsubscribe.{unsubscribe_one, unsubscribe_connection}
use blipmq.Core.Broker.Unsubscribe.Keeps.{
  get-unsubscribe_one, unsubscribe_one-IsRegistry, unsubscribe_connection-IsRegistry,
}
use blipmq.Core.Broker.Publish.{publish_inner, targets, from_topic}
use blipmq.Core.Broker.PublishMethods.{publish_durable}
use blipmq.Core.Broker.Publish.Keeps.{publish_inner-IsRegistry}
use blipmq.Core.Broker.PublishMethods.Keeps.{publish_durable-IsRegistry}
use blipmq.Core.Broker.Publish.Reached.{Reaches, All-Member, targets-Reaches, targets-Watches}
use blipmq.Core.Broker.Publish.Targets.{Member}
use blipmq.Core.Broker.Publish.Wildcards.{Watches, Subscribed}
use blipmq.Core.NameMap.{find}
use blipmq.Core.Broker.Ack.{poll, ack}
use blipmq.Core.Broker.Ack.Keeps.{poll-IsRegistry, ack-IsRegistry}
use blipmq.Wal.Record.{WalRecord}
use blipmq.Core.Broker.Replay.{replay_from_wal_with_checkpoint}
use blipmq.Core.Broker.OffsetReplay.{replay_to_subscriber}
use blipmq.Core.Broker.OffsetReplay.Keeps.{replay_to_subscriber-IsRegistry}
use blipmq.Core.Broker.Replay.Keeps.{replay_from_wal_with_checkpoint-IsRegistry}
use blipmq.Core.Broker.Maintain.{maintenance_tick}
use blipmq.Core.Broker.Maintain.Keeps.{maintenance_tick-IsRegistry}

-- One call of a method, or the writer of a connection that takes its shared buffer. Every other
-- `subscribe` method is a case of `subscribe_inner_grouped`, and every other `publish` method one of
-- `publish_inner`, which also ends a durable publish after the calls that others make during its await.
-- A subscription finds an id that is left: the counter does not wrap before 2 ^ 64 of them.
pub data Step ⦃w : Buf⦄ (hash : Bytes → ℕ) (b : Broker) : Broker → Type 0 where
  subscribes :
      (client_id topic : Bytes) (qos : QosLevel) (conn_id : Option ℕ) (sender : Option PushSender)
      (slot : Option PushSlot) (group : Option Bytes)
      → b.next_subscription_id + 1 < 2 ^ 64
      → Step hash b (subscribe_inner_grouped client_id topic qos conn_id sender slot group b).0
  subscribes_to_pattern :
      (client_id : Bytes) (pattern : SubjectPattern) (qos : QosLevel)
      → b.next_subscription_id + 1 < 2 ^ 64
      → Step hash b (subscribe_pattern client_id pattern qos b).0
  subscribes_to_pattern_with_slot :
      (client_id : Bytes) (pattern : SubjectPattern) (qos : QosLevel) (conn_id : ℕ)
      (slot : PushSlot)
      → b.next_subscription_id + 1 < 2 ^ 64
      → Step hash b (subscribe_pattern_with_slot client_id pattern qos conn_id slot b).0
  unsubscribes : (id : ℕ) → Step hash b (unsubscribe_one id b).0
  disconnects : (conn_id : ℕ) → Step hash b (unsubscribe_connection conn_id b)
  publishes :
      (now : ℕ) (topic : Bytes) (resolved : Option Bytes) (payload : Bytes) (qos : QosLevel)
      (wal_id ttl : Option ℕ) (key : Option Bytes)
      → Step hash b (publish_inner hash now topic resolved payload qos wal_id ttl key b)
  publishes_durably :
      (append : Bytes → Outcome LogError ℕ) (now : ℕ) (topic payload : Bytes) (qos : QosLevel)
      → Step hash b (publish_durable (λ bytes c. (c, append bytes)) hash now topic payload qos b).0
  polls : (now id : ℕ) → Step hash b (poll now id b).0
  acks : (id tag : ℕ) → Step hash b (ack id tag b).0
  ticks : (clock now : ℕ) → Step hash b (maintenance_tick hash clock now b)
  replays_to_subscriber :
      (iterate : ℕ → Outcome LogError (List WalRecord)) (now id from_offset : ℕ)
      → Step hash b (replay_to_subscriber iterate now id from_offset b).0
  replays :
      (iterate : ℕ → Outcome LogError (List WalRecord)) (now : ℕ)
      (checkpoint : Option CheckpointSnapshot)
      → Step hash b (replay_from_wal_with_checkpoint iterate now checkpoint b).0
  swaps_buffer :
      (address : ℕ) (local : Bytes)
      → Step hash b (record b { buffers = (swap_buffer address local b.buffers).1 })
  shuts_down : Step hash b (begin_shutdown b)
  gets_ready : Step hash b (mark_ready b)

pub data Reachable ⦃w : Buf⦄ (hash : Bytes → ℕ) : Broker → Type 0 where
  fresh : (config : BrokerConfig) (wal : Bool) → Reachable hash (new_broker config wal)
  after : {b c : Broker} → Reachable hash b → Step hash b c → Reachable hash c

new_broker-IsRegistry : (config : BrokerConfig) (wal : Bool) → IsRegistry (new_broker config wal)
unfolding new_broker get
new_broker-IsRegistry config wal = record {
  topics_on = tt;
  watches_on = tt;
  ids_below = λ id there. absurd (there refl);
  counted = refl;
}

module _ ⦃w : Buf⦄ (hash : Bytes → ℕ) where
  Step-IsRegistry : (b c : Broker) → IsRegistry b → Step hash b c → IsRegistry c
  unfolding begin_shutdown mark_ready
  Step-IsRegistry b c v (subscribes _ _ _ _ _ _ _ room) =
      subscribe_inner_grouped-IsRegistry _ _ _ _ _ _ _ b v room
  Step-IsRegistry b c v (subscribes_to_pattern _ _ _ room) =
      subscribe_pattern-IsRegistry _ _ _ b v room
  Step-IsRegistry b c v (subscribes_to_pattern_with_slot _ _ _ _ _ room) =
      subscribe_pattern_with_slot-IsRegistry _ _ _ _ _ b v room
  Step-IsRegistry b c v (unsubscribes id) = unsubscribe_one-IsRegistry id b v
  Step-IsRegistry b c v (disconnects conn_id) = unsubscribe_connection-IsRegistry conn_id b v
  Step-IsRegistry b c v (publishes now topic resolved payload qos wal_id ttl key) =
      publish_inner-IsRegistry hash now topic resolved payload qos wal_id ttl key b v
  Step-IsRegistry b c v (publishes_durably append now topic payload qos) =
      publish_durable-IsRegistry (λ bytes c. (c, append bytes)) hash now topic payload qos b
        (λ bytes. v) v
  Step-IsRegistry b c v (polls now id) = poll-IsRegistry now id b v
  Step-IsRegistry b c v (acks id tag) = ack-IsRegistry id tag b v
  Step-IsRegistry b c v (ticks clock now) = maintenance_tick-IsRegistry hash clock now b v
  Step-IsRegistry b c v (replays_to_subscriber iterate now id from_offset) =
      replay_to_subscriber-IsRegistry iterate now id from_offset b v
  Step-IsRegistry b c v (replays iterate now checkpoint) =
      replay_from_wal_with_checkpoint-IsRegistry iterate now checkpoint b v
  Step-IsRegistry b c v (swaps_buffer address local) = buffers-IsRegistry b _ v
  Step-IsRegistry b c v shuts_down = record {
    topics_on = v.topics_on;
    watches_on = v.watches_on;
    ids_below = v.ids_below;
    counted = v.counted;
  }
  Step-IsRegistry b c v gets_ready = record {
    topics_on = v.topics_on;
    watches_on = v.watches_on;
    ids_below = v.ids_below;
    counted = v.counted;
  }

  -- After any run of the broker's methods from a new one, every subscriber of a topic and every member
  -- of a group on it is registered for that topic and group, every watched pattern belongs to a
  -- registered subscription, the counter of the patterns is their number, and the ids that are in use
  -- lie below the next one.
  pub Reachable-IsRegistry : (b : Broker) → Reachable hash b → IsRegistry b
  Reachable-IsRegistry b (fresh config wal) = new_broker-IsRegistry config wal
  Reachable-IsRegistry b (after run step) = Step-IsRegistry _ b (Reachable-IsRegistry _ run) step

  reached :
      (b : Broker) (subject topic : Bytes) (key : Option Bytes)
      → Reachable hash b
      → All (Reaches subject topic b) (targets hash subject topic key b)
  reached b subject topic key run =
      targets-Reaches hash key subject topic b (Reachable-IsRegistry b run)

  -- After any run of the methods, a publish reaches only subscriptions that are registered: for its
  -- topic, alone or in a group, or with a pattern that matches its subject. Once a subscription is
  -- cancelled, no publish reaches it.
  pub Reachable-Reaches :
      (b : Broker) (subject topic : Bytes) (key : Option Bytes) (id : ℕ)
      → Reachable hash b
      → All (Reaches subject topic b) (targets hash subject topic key b)
        × (¬ Member id (targets hash subject topic key (unsubscribe_one id b).0))
  Reachable-Reaches b subject topic key id run = (
    reached b subject topic key run,
    λ m.
        let c : Broker = (unsubscribe_one id b).0 in
        let gone : get id c.subscriptions ≡ none = get-unsubscribe_one id b in
        elim (All-Member (Reaches subject topic c) (targets hash subject topic key c) id
          (reached c subject topic key (after run (unsubscribes id))) m) [
            | inl (group, on) ↦ absurd (ground (arith, gone, on))
            | inr (watches, there) ↦ absurd (there gone)
          ],
  )

  -- After any run of the methods, with less than 2 ^ 64 patterns, an id is among the targets of a publish
  -- if and only if the topic record of its handle gives it, or it watches a pattern that matches the
  -- subject and is still registered.
  pub Reachable-Watches :
      (b : Broker) (subject topic : Bytes) (key : Option Bytes) (id : ℕ)
      → Reachable hash b
      → length b.wildcard_subs < 2 ^ 64
      → Member id (targets hash subject topic key b) ↔ (
          Member id (from_topic hash key (find topic b.topics))
          ⊎ (Watches id subject b.wildcard_subs × Subscribed id b.subscriptions))
  Reachable-Watches b subject topic key id run small =
      targets-Watches hash key subject topic b id (Reachable-IsRegistry b run) small
