-- ===== src/Net/Payload/Total.antt =====
-- The decoders of net/src/frame.rs on arbitrary bytes: what a peer sends can make them fail, and
-- never panic.
use blipmq.Prelude.{arith, drop, length-drop, Returns}
use blipmq.Wire.Buf.{Bytes, Buf}
use blipmq.Wire.Cursor.{get_uint, copy_to_bytes}
use blipmq.Wire.Utf8.{from_utf8}
use blipmq.Net.Payload.Hello
use blipmq.Net.Payload.Auth
use blipmq.Net.Payload.Ack
use blipmq.Net.Payload.Nack
use blipmq.Net.Payload.Poll
use blipmq.Net.Payload.Deliver
use blipmq.Net.Payload.Publish
use blipmq.Net.Payload.Subscribe

hello-Returns : ⦃b : Buf⦄ (payload : Bytes) → Returns (Hello.decode payload)
unfolding Hello.decode get_uint
hello-Returns payload = ground arith

ack-Returns : ⦃b : Buf⦄ (payload : Bytes) → Returns (Ack.decode payload)
unfolding Ack.decode get_uint
ack-Returns payload = ground arith

poll-Returns : ⦃b : Buf⦄ (payload : Bytes) → Returns (Poll.decode payload)
unfolding Poll.decode get_uint
poll-Returns payload = ground arith

auth-Returns : ⦃b : Buf⦄ (payload : Bytes) → Returns (Auth.decode payload)
unfolding Auth.decode get_uint copy_to_bytes from_utf8
auth-Returns payload = ground (arith, length-drop 2 payload)

nack-Returns : ⦃b : Buf⦄ (payload : Bytes) → Returns (Nack.decode payload)
unfolding Nack.decode get_uint copy_to_bytes from_utf8
nack-Returns payload = ground (arith, length-drop 2 payload, length-drop 2 (drop 2 payload))

deliver-Returns : ⦃b : Buf⦄ (payload : Bytes) → Returns (Deliver.decode payload)
unfolding Deliver.decode get_uint copy_to_bytes from_utf8
deliver-Returns payload = ground (
  arith,
  length-drop 1 payload,
  length-drop 8 (drop 1 payload),
  length-drop 2 (drop 8 (drop 1 payload)),
)

-- Every payload decoder returns a value or an error on any bytes.
pub decoders-Return :
    ⦃b : Buf⦄ (payload : Bytes)
    → Returns (Hello.decode payload)
      × Returns (Auth.decode payload)
      × Returns (Ack.decode payload)
      × Returns (Nack.decode payload)
      × Returns (Poll.decode payload)
      × Returns (Publish.decode payload)
      × Returns (Deliver.decode payload)
      × Returns (Subscribe.decode payload)
decoders-Return payload = (
  hello-Returns payload,
  auth-Returns payload,
  ack-Returns payload,
  nack-Returns payload,
  poll-Returns payload,
  Publish.Total.decode-Returns payload,
  deliver-Returns payload,
  Subscribe.Total.decode-Returns payload,
)
