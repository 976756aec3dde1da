-- ===== src/Net/Payload/Common.antt =====
-- What the payload codecs of net/src/frame.rs share.
use blipmq.Prelude.{ℕ, ◌%◌, ◌^◌, ◌<◌, ◌≡◌, arith, length, ltb, if◌then◌else◌, Outcome, ok, err}
use blipmq.Wire.Buf.{Bytes}
use blipmq.Net.Frame.{FrameDecodeError, FrameEncodeError, invalid_length, payload_too_large}

-- `FrameDecodeError::InvalidLength(payload.len() as u32)`
abbrev pub bad_length : Bytes → FrameDecodeError
bad_length payload = invalid_length (length payload % 2 ^ 32)

-- `u16::try_from(len).map_err(|_| FrameEncodeError::PayloadTooLarge(len))`
unfoldable pub u16_len : ℕ → Outcome FrameEncodeError ℕ
u16_len n = if ltb n (2 ^ 16) then ok n else err (payload_too_large n)

pub u16_len-ok : (n : ℕ) → n < 2 ^ 16 → u16_len n ≡ ok n
unfolding u16_len
u16_len-ok n h = ground arith
