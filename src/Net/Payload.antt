-- ===== src/Net/Payload.antt =====
-- net/src/frame.rs: the payloads of the messages, each with its `encode` and `decode`. A `String`
-- or a topic is its bytes; that it is UTF-8 is a hypothesis of the theorems.
pub mod Common
mod Flags
pub mod Hello
pub mod Auth
pub mod Ack
pub mod Nack
pub mod Poll
pub mod Deliver
pub mod Publish
pub mod Subscribe
pub mod Total
