-- ===== src/Core/LogError.antt =====
-- `WalError` of wal/src/lib.rs, which core/src/lib.rs calls `LogError`, and the `QoSLevel` of a
-- message. A message that is built by `format!` is its text and the number in it.
use Prim.Native.String.{String}
use blipmq.Prelude.{ℕ, ◌^◌, ◌<◌, ◌≡◌, arith, ltb, if◌then◌else◌, Outcome, ok, err}

pub data Message : Type 0 where
  text : String → Message
  text_number : String → ℕ → Message
  crc_mismatch : ℕ → ℕ → ℕ → Message

pub data LogError : Type 0 where
  io writer_stopped : LogError
  backpressure invalid_config corruption : Message → LogError

pub data QosLevel : Type 0 where
  at_most_once at_least_once : QosLevel

-- `u16::try_from(len).map_err(|_| LogError::Corruption(msg))`
unfoldable pub u16_or : String → ℕ → Outcome LogError ℕ
u16_or msg n = if ltb n (2 ^ 16) then ok n else err (corruption (text msg))

pub u16_or-ok : (msg : String) (n : ℕ) → n < 2 ^ 16 → u16_or msg n ≡ ok n
unfolding u16_or
u16_or-ok msg n h = ground arith
