-- ===== src/Net/Error.antt =====
-- net/src/error.rs: the errors of the network crate. Of an `io::Error` the kind is kept.
use blipmq.Prelude.{Outcome, ok, err, panic}
use blipmq.Wire.Buf.{Bytes}
use blipmq.Net.Frame.{FrameDecodeError, FrameEncodeError}

pub data ErrorKind : Type 0 where
  unsupported broken_pipe permission_denied other : ErrorKind

pub data Error : Type 0 where
  io : ErrorKind → Error
  frame_decode : FrameDecodeError → Error
  frame_encode : FrameEncodeError → Error
  handler : Bytes → Error

-- `?` on the result of an encoder.
abbrev pub encoded {ℓ} : {A : Type ℓ} → Outcome FrameEncodeError A → Outcome Error A
encoded (ok a) = ok a
encoded (err e) = err (frame_encode e)
encoded panic = panic
