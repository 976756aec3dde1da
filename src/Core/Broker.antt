-- ===== src/Core/Broker.antt =====
-- core/src/lib.rs, `Broker`: its state. A method is one step, but for the await of `publish_durable`.
-- Every `Arc<Subscriber>` is made by `subscribe_inner_grouped` for a new subscription id, and is
-- written as that id: `store` holds what the references point to. The sharded maps are written as one
-- map each: a key has one shard, which the hash of the key or its low bits give. An `AtomicU64` wraps
-- at 2 ^ 64.
pub mod Subscribe
pub mod Unsubscribe
pub mod Publish
pub mod PublishMethods
pub mod Ack
pub mod Replay
pub mod OffsetReplay
pub mod Maintain
pub mod Registry
pub mod Reachable
pub mod Compaction
use blipmq.Prelude.{
  ℕ, ◌+◌, ◌%◌, ◌^◌, Bool, true, false, not, ◌&&◌, List, [], ◌∷◌, length, Option, none, some,
  is_some,
}
use blipmq.Wire.Buf.{Bytes}
use blipmq.Core.Subject.{SubjectPattern}
use blipmq.Core.Checkpoint.{Cursor}
use blipmq.Core.Config.{BrokerConfig}
use blipmq.Core.NameMap.{find}
use blipmq.Core.Subscriber.{Buffers, Subscriber}

pub record ConsumerGroup : Type 0 where
  pub members : List ℕ
  pub next_idx : ℕ

pub record Topic : Type 0 where
  pub name : Bytes
  pub subscribers : List ℕ
  pub consumer_groups : List (Bytes × ConsumerGroup)
  pub published_total : ℕ
  pub delivered_total : ℕ

pub record SubscriptionRef : Type 0 where
  pub topic : Bytes
  pub group : Option Bytes

pub record Broker : Type 0 where
  pub config : BrokerConfig
  pub store : List (ℕ × Subscriber)
  pub buffers : Buffers
  pub topics : List (Bytes × Topic)
  pub subscriptions : List (ℕ × SubscriptionRef)
  pub connection_subs : List (ℕ × List ℕ)
  pub next_subscription_id : ℕ
  pub wal : Bool  -- whether there is a log
  pub shutting_down : Bool
  pub ready : Bool
  pub messages_published_total : ℕ
  pub messages_delivered_total : ℕ
  pub push_dropped_total : ℕ
  pub max_wal_id_observed : ℕ
  pub ack_cursors : List Cursor
  pub publish_count : ℕ
  pub wildcard_subs : List (SubjectPattern × ℕ)
  pub wildcard_subs_len : ℕ

pub new_group : ConsumerGroup
new_group = record { members = []; next_idx = 0 }

pub new_topic : Bytes → Topic
new_topic name = record {
  name = name;
  subscribers = [];
  consumer_groups = [];
  published_total = 0;
  delivered_total = 0;
}

unfoldable pub new_broker : BrokerConfig → Bool → Broker
new_broker config wal = record {
  config = config;
  store = [];
  buffers = [];
  topics = [];
  subscriptions = [];
  connection_subs = [];
  next_subscription_id = 1;
  wal = wal;
  shutting_down = false;
  ready = false;
  messages_published_total = 0;
  messages_delivered_total = 0;
  push_dropped_total = 0;
  max_wal_id_observed = 0;
  ack_cursors = [];
  publish_count = 0;
  wildcard_subs = [];
  wildcard_subs_len = 0;
}

-- `fetch_add`
abbrev pub add : ℕ → ℕ → ℕ
add counter n = (counter + n) % 2 ^ 64

pub begin_shutdown : Broker → Broker
begin_shutdown b = record b { shutting_down = true }

pub mark_ready : Broker → Broker
mark_ready b = record b { ready = true }

pub is_ready : Broker → Bool
is_ready b = b.ready && not b.shutting_down

pub topic_count : Broker → ℕ
topic_count b = length b.topics

pub subscriber_count : Broker → ℕ
subscriber_count b = length b.subscriptions

pub record TopicMetrics : Type 0 where
  pub topic : Bytes
  pub published_total : ℕ
  pub delivered_total : ℕ
  pub subscriber_count : ℕ

metrics_of : List (Bytes × Topic) → List TopicMetrics
metrics_of [] = []
metrics_of ((k, t) ∷ ts) =
    record {
      topic = t.name;
      published_total = t.published_total;
      delivered_total = t.delivered_total;
      subscriber_count = length t.subscribers;
    }
    ∷ metrics_of ts

pub topic_metrics : Broker → List TopicMetrics
topic_metrics b = metrics_of b.topics

-- The handle is the name: a topic is never removed.
pub resolve_topic : Bytes → Broker → Option Bytes
resolve_topic name b = elim (find name b.topics) [ none ↦ none | some t ↦ some name ]
