-- ===== src/Net/Frame.antt =====
-- net/src/frame.rs: the frame around every message of the protocol, its encoder, the one-pass
-- encoder of DELIVER frames, and the decoder that the connection loop runs on its read buffer.
-- `u32` and `u64` fields are numbers; their ranges are hypotheses of the theorems. The buffer that
-- an encoder appends to is an argument, and the new buffer its result.
pub mod RoundTrip
pub mod Total
pub mod Deliver
use blipmq.Prelude.{
  ℕ, ◌+◌, ◌*◌, ◌%◌, ◌^◌, ◌≤◌, ◌<◌, ◌≡◌, Option, none, some, List, [], ◌∷◌, ◌++◌, length, take, drop,
  ltb, leb, ◌==◌, if◌then◌else◌, Outcome, ok, err, panic, ◌>>=◌,
}
use blipmq.Wire.Buf.{Bytes, Buf}
use blipmq.Wire.Cursor.{get_uint, advance, copy_to_bytes}

abbrev pub length_field_len : ℕ
length_field_len = 4

abbrev pub max_frame_size : ℕ
max_frame_size = 16 * 1024 * 1024

pub data FrameType : Type 0 where
  hello auth publish subscribe ack nack ping pong poll deliver : FrameType

pub record Frame : Type 0 where
  pub msg_type : FrameType
  pub correlation_id : ℕ
  pub payload : Bytes

pub data FrameDecodeError : Type 0 where
  invalid_length frame_too_large unknown_frame_type : ℕ → FrameDecodeError

pub data FrameEncodeError : Type 0 where
  payload_too_large : ℕ → FrameEncodeError

unfoldable pub to_u8 : FrameType → ℕ
to_u8 hello = 0x01
to_u8 auth = 0x02
to_u8 publish = 0x03
to_u8 subscribe = 0x04
to_u8 ack = 0x05
to_u8 nack = 0x06
to_u8 ping = 0x07
to_u8 pong = 0x08
to_u8 poll = 0x09
to_u8 deliver = 0x0a

unfoldable pub try_from : ℕ → Outcome FrameDecodeError FrameType
try_from v =
    if v == 0x01
    then ok hello
    else if v == 0x02
    then ok auth
    else if v == 0x03
    then ok publish
    else if v == 0x04
    then ok subscribe
    else if v == 0x05
    then ok ack
    else if v == 0x06
    then ok nack
    else if v == 0x07
    then ok ping
    else if v == 0x08
    then ok pong
    else if v == 0x09
    then ok poll
    else if v == 0x0a
    then ok deliver
    else err (unknown_frame_type v)

-- `checked_add` on `usize`, and the error in place of its `None`.
abbrev pub checked_add : {E : Type 0} → E → ℕ → ℕ → Outcome E ℕ
checked_add e a b = if ltb (a + b) (2 ^ 64) then ok (a + b) else err e

unfoldable pub encode_frame : ⦃b : Buf⦄ → Frame → Bytes → Outcome FrameEncodeError Bytes
unfolding to_u8
encode_frame ⦃b⦄ frame dst = do
  let payload_len = length frame.payload
  v ← checked_add (payload_too_large payload_len) 1 8
  total_len ← checked_add (payload_too_large payload_len) v payload_len
  if ltb max_frame_size total_len
      then err (payload_too_large payload_len)
      else ok (
          dst
          ++ (b.put 4 (total_len % 2 ^ 32)
              ++ (b.put 1 (to_u8 frame.msg_type)
                  ++ (b.put 8 frame.correlation_id ++ frame.payload))))

-- `topic` is the `&str` as its bytes.
unfoldable pub encode_deliver_frame :
    ⦃b : Buf⦄ → Bytes → ℕ → ℕ → Bytes → Bytes → Outcome FrameEncodeError Bytes
unfolding to_u8
encode_deliver_frame ⦃b⦄ dst qos delivery_tag topic message = do
  let topic_len = length topic
  topic_len_u16 ←
      (if ltb topic_len (2 ^ 16) then ok topic_len else err (payload_too_large topic_len))
  let message_len = length message
  v ← checked_add (payload_too_large message_len) 20 topic_len
  frame_body_len ← checked_add (payload_too_large message_len) v message_len
  if ltb max_frame_size frame_body_len
      then err (payload_too_large frame_body_len)
      else ok (
          dst
          ++ (b.put 4 (frame_body_len % 2 ^ 32)
              ++ (b.put 1 (to_u8 deliver)
                  ++ (b.put 8 delivery_tag
                      ++ (b.put 1 qos
                          ++ (b.put 8 delivery_tag
                              ++ (b.put 2 topic_len_u16 ++ (topic ++ message))))))))

-- The frame that was split off the buffer, its length field included.
read_frame : ⦃b : Buf⦄ → Bytes → Outcome FrameDecodeError (Option Frame)
read_frame frame_bytes = do
  s ← advance length_field_len frame_bytes
  (msg_type_raw, s) ← get_uint 1 s
  msg_type ← try_from msg_type_raw
  (correlation_id, s) ← get_uint 8 s
  ok (some (record { msg_type = msg_type; correlation_id = correlation_id; payload = s }))

-- The caller's buffer after `split_to`: what is left, and what the split-off frame reads as.
finish :
    ⦃b : Buf⦄
    → Bytes
    → Outcome FrameDecodeError (Bytes × Bytes)
    → Bytes × Outcome FrameDecodeError (Option Frame)
unfolding read_frame
finish src (ok (frame_bytes, left)) = (left, read_frame frame_bytes)
finish src (err e) = (src, err e)
finish src panic = (src, panic)

-- The checks on the length field, and the split of the buffer.
split_frame :
    ⦃b : Buf⦄
    → Bytes
    → Outcome FrameDecodeError (ℕ × Bytes)
    → Bytes × Outcome FrameDecodeError (Option Frame)
unfolding finish
split_frame src (ok (frame_len, _)) =
    if frame_len == 0
    then (src, err (invalid_length frame_len))
    else if ltb max_frame_size frame_len
    then (src, err (frame_too_large frame_len))
    else if ltb frame_len (1 + 8)
    then (src, err (invalid_length frame_len))
    else if ltb (length src) (length_field_len + frame_len)
    then (src, ok none)
    else finish src (copy_to_bytes (length_field_len + frame_len) src)
split_frame src (err e) = (src, err e)
split_frame src panic = (src, panic)

-- The buffer that is left, and the result. `Ok(None)` asks for more bytes.
unfoldable pub try_decode_frame :
    ⦃b : Buf⦄ → Bytes → Bytes × Outcome FrameDecodeError (Option Frame)
unfolding split_frame
try_decode_frame src =
    if ltb (length src) length_field_len
    then (src, ok none)
    else split_frame src (get_uint 4 (take length_field_len src))
