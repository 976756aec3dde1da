-- ===== src/Core.antt =====
-- core/src/lib.rs: the broker crate.
pub mod LogError
pub mod WalEntry
pub mod Checkpoint
pub mod Subject
pub mod TagMap
pub mod NameMap
pub mod Queue
pub mod Config
pub mod Subscriber
pub mod Broker
