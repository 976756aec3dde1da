-- ===== src/Core/Broker/Registry.antt =====
-- What holds of the registry of core/src/lib.rs between any two calls: the subscriptions, and the
-- topics, the consumer groups and the patterns that refer to them.
use blipmq.Prelude.{ℕ, ◌<◌, ◌%◌, ◌^◌, ◌≡◌, ◌≢◌, All, List, length, Option, none, some}
use blipmq.Wire.Buf.{Bytes}
use blipmq.Core.Subject.{SubjectPattern}
use blipmq.Core.TagMap.{get}
use blipmq.Core.Checkpoint.{Cursor}
use blipmq.Core.Subscriber.{Buffers, Subscriber}
use blipmq.Core.Broker.{ConsumerGroup, Topic, SubscriptionRef, Broker}

abbrev pub Refs : Type 0
Refs = List (ℕ × SubscriptionRef)

-- The subscription is registered for the topic, in that group or in none.
abbrev pub On : Bytes → Option Bytes → Refs → ℕ → Type 0
On topic group subs id = get id subs ≡ some (record { topic = topic; group = group })

abbrev pub GroupOn : Bytes → Refs → Bytes × ConsumerGroup → Type 0
GroupOn topic subs (name, g) = All (On topic (some name) subs) g.members

abbrev pub TopicOn : Refs → Bytes × Topic → Type 0
TopicOn subs (topic, t) =
    All (On topic none subs) t.subscribers × All (GroupOn topic subs) t.consumer_groups

abbrev pub WatchOn : Refs → SubjectPattern × ℕ → Type 0
WatchOn subs (p, id) = get id subs ≢ none

abbrev pub Below : Refs → ℕ → Type 0
Below subs next = (id : ℕ) → get id subs ≢ none → id < next

pub record IsRegistry (b : Broker) : Type 0 where
  pub topics_on : All (TopicOn b.subscriptions) b.topics
  pub watches_on : All (WatchOn b.subscriptions) b.wildcard_subs
  pub ids_below : Below b.subscriptions b.next_subscription_id
  pub counted : b.wildcard_subs_len ≡ length b.wildcard_subs % 2 ^ 64

-- The queues, the push channels and slots, and the cursors are no part of it.
pub store-IsRegistry :
    (b : Broker) (store : List (ℕ × Subscriber))
    → IsRegistry b
    → IsRegistry (record b { store = store })
store-IsRegistry b store v = record {
  topics_on = v.topics_on;
  watches_on = v.watches_on;
  ids_below = v.ids_below;
  counted = v.counted;
}

pub buffers-IsRegistry :
    (b : Broker) (buffers : Buffers) → IsRegistry b → IsRegistry (record b { buffers = buffers })
buffers-IsRegistry b buffers v = record {
  topics_on = v.topics_on;
  watches_on = v.watches_on;
  ids_below = v.ids_below;
  counted = v.counted;
}

pub cursors-IsRegistry :
    (b : Broker) (cursors : List Cursor)
    → IsRegistry b
    → IsRegistry (record b { ack_cursors = cursors })
cursors-IsRegistry b cursors v = record {
  topics_on = v.topics_on;
  watches_on = v.watches_on;
  ids_below = v.ids_below;
  counted = v.counted;
}
