-- ===== src/Tests.antt =====
-- Runs of the code on concrete inputs, and the theorems at inputs that meet their hypotheses.
pub mod Frames
pub mod Segments
pub mod Checkpoints
pub mod Payloads
pub mod Records
pub mod Brokers
pub mod Cursors
pub mod Compactions
pub mod Connections
pub mod Writers
