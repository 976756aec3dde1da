-- ===== src/Net/Server/Cache.antt =====
-- net/src/server.rs, `PublishTopicCache`: the topic that a connection published to last, with the
-- broker's handle of it. A topic name is its bytes, and so is the handle.
pub mod Coherent
use blipmq.Prelude.{Option, none, some, is_some, if◌then◌else◌}
use blipmq.Wire.Buf.{Bytes}
use blipmq.Core.Subject.{bytes_eq}

pub record PublishTopicCache : Type 0 where
  pub last_bytes : Option Bytes
  pub last_topic : Option Bytes
  pub last_resolved : Option Bytes

-- `PublishTopicCache::default()`
abbrev pub empty_cache : PublishTopicCache
empty_cache = record { last_bytes = none; last_topic = none; last_resolved = none }

-- The entry, if it is the one of these bytes.
hit : Bytes → Option Bytes → Option Bytes → Option Bytes
hit topic_bytes (some prev_bytes) (some prev_topic) =
    if bytes_eq prev_bytes topic_bytes then some prev_topic else none
hit topic_bytes (some prev_bytes) none = none
hit topic_bytes none _ = none

-- The cache afterwards, and the topic.
pub get : PublishTopicCache → Bytes → PublishTopicCache × Bytes
unfolding hit
get c topic_bytes = elim (hit topic_bytes c.last_bytes c.last_topic) [
  | some prev_topic ↦ (c, prev_topic)
  | none ↦ (
    record { last_bytes = some topic_bytes; last_topic = some topic_bytes; last_resolved = none },
    topic_bytes,
  )
]

-- The same topic as before: the handle is kept once there is one.
again :
    (Bytes → Option Bytes)
    → PublishTopicCache
    → Bytes
    → Option Bytes
    → PublishTopicCache × Bytes × Option Bytes
again resolver c prev_topic (some resolved) = (c, prev_topic, some resolved)
again resolver c prev_topic none =
    let resolved = resolver prev_topic in
    ((if is_some resolved then record c { last_resolved = resolved } else c), prev_topic, resolved)

-- The cache afterwards, the topic and its handle.
pub get_with_resolve :
    PublishTopicCache → Bytes → (Bytes → Option Bytes) → PublishTopicCache × Bytes × Option Bytes
unfolding hit again
get_with_resolve c topic_bytes resolver = elim (hit topic_bytes c.last_bytes c.last_topic) [
  | some prev_topic ↦ again resolver c prev_topic c.last_resolved
  | none ↦
      let resolved = resolver topic_bytes in
      (
        record {
          last_bytes = some topic_bytes;
          last_topic = some topic_bytes;
          last_resolved = resolved;
        },
        topic_bytes,
        resolved,
      )
]
