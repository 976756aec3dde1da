-- ===== src/Wire/Crc32.antt =====
-- The `Hasher` of the `crc32fast` crate, which core/src/lib.rs and wal/src/lib.rs call. The crate is
-- not part of the repository: its checksum is any function of the bytes into the `u32`.
use blipmq.Prelude.{ℕ, ◌^◌, ◌<◌}
use blipmq.Wire.Buf.{Bytes}

pub record Crc32 : Type 0 where
  pub checksum : Bytes → ℕ
  pub checksum_lt : (bytes : Bytes) → checksum bytes < 2 ^ 32
