-- ===== src/Core/Config.antt =====
-- core/src/lib.rs, `BrokerConfig`. A `Duration` is its number of nanoseconds.
use blipmq.Prelude.{ℕ, ◌*◌, [], ◌∷◌, Option, some}
use blipmq.Wire.Buf.{Bytes}
use blipmq.Core.LogError.{QosLevel, at_most_once}

pub data SlowConsumerPolicy : Type 0 where
  drop_newest drop_subscription : SlowConsumerPolicy

pub record BrokerConfig : Type 0 where
  pub default_qos : QosLevel
  pub message_ttl : ℕ
  pub per_subscriber_queue_capacity : ℕ
  pub max_retries : ℕ
  pub retry_base_delay : ℕ
  pub slow_consumer_policy : SlowConsumerPolicy
  pub slow_consumer_buffer_bytes : ℕ
  pub dlq_suffix : Option Bytes

-- `BrokerConfig::default()`
unfoldable pub default_config : BrokerConfig
default_config = record {
  default_qos = at_most_once;
  message_ttl = 60 * 1000000000;
  per_subscriber_queue_capacity = 1024;
  max_retries = 3;
  retry_base_delay = 50 * 1000000;
  slow_consumer_policy = drop_newest;
  slow_consumer_buffer_bytes = 16 * 1024 * 1024;
  dlq_suffix = some (b'.' ∷ b'd' ∷ b'l' ∷ b'q' ∷ []);
}
