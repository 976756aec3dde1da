-- ===== src/Net/Connection/Encoder.antt =====
-- net/src/connection.rs: `make_deliver_encoder`, the encoder of a connection's push slot.
use blipmq.Prelude.{ℕ, Outcome, ok, err, panic}
use blipmq.Wire.Buf.{Bytes, Buf}
use blipmq.Core.LogError.{QosLevel}
use blipmq.Net.Frame.{FrameEncodeError, encode_deliver_frame}
use blipmq.Net.Server.{qos_to_u8}

-- `let _ = ...`: the buffer stays as it is when the frame is too large.
or_unchanged : Bytes → Outcome FrameEncodeError Bytes → Bytes
or_unchanged buf (ok buf') = buf'
or_unchanged buf (err e) = buf
or_unchanged buf panic = buf

pub make_deliver_encoder : ⦃w : Buf⦄ → Bytes → QosLevel → ℕ → Bytes → Bytes → Bytes
unfolding or_unchanged
make_deliver_encoder buf qos tag topic payload =
    or_unchanged buf (encode_deliver_frame buf (qos_to_u8 qos) tag topic payload)
