-- ===== src/Net/Connection/Keeps.antt =====
-- The login of a connection of net/src/connection.rs as a relation between the states that it goes
-- through, and the steps of the reader along it.
pub mod Login
pub mod Frames
pub mod Runs
pub mod Calm
pub mod Total
