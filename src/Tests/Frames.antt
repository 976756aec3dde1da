-- ===== src/Tests/Frames.antt =====
-- Runs and instances for net/src/frame.rs, the frames.
use blipmq.Prelude.{◌≡◌, refl, arith, some, [], ◌∷◌, ◌++◌, ok}
use blipmq.Wire.Buf.{Bytes}
use blipmq.Wire.BigEndian.{big_endian}
use blipmq.Wire.Endian.{le_bytes}
use blipmq.Net.Frame.{Frame, ping, encode_frame, try_decode_frame, encode_deliver_frame}
use blipmq.Net.Frame.RoundTrip.{try_decode_frame-encode_frame}
use blipmq.Net.Frame.Deliver.{Agree, deliver_in_two_steps, encode_deliver_frame-Agree}
use blipmq.Net.Payload.Deliver.{DeliverPayload}

abbrev a_ping : Frame
a_ping = record { msg_type = ping; correlation_id = 5; payload = 9 ∷ [] }

abbrev ping_bytes : Bytes
ping_bytes = 0 ∷ 0 ∷ 0 ∷ 10 ∷ 7 ∷ 0 ∷ 0 ∷ 0 ∷ 0 ∷ 0 ∷ 0 ∷ 0 ∷ 5 ∷ 9 ∷ []

encode_ping : encode_frame a_ping [] ≡ ok ping_bytes
unfolding encode_frame le_bytes
encode_ping = refl

try_decode_frame-encode_frame_example :
    (wire : Bytes) × (ping_bytes ≡ [] ++ wire)
    × (try_decode_frame (wire ++ (1 ∷ 2 ∷ [])) ≡ (1 ∷ 2 ∷ [], ok (some a_ping)))
try_decode_frame-encode_frame_example =
    try_decode_frame-encode_frame a_ping [] ping_bytes (1 ∷ 2 ∷ []) (omega arith) encode_ping

abbrev a_delivery : DeliverPayload
a_delivery = record { qos = 1; delivery_tag = 3; topic = b'a' ∷ []; message = 1 ∷ 2 ∷ [] }

encode_deliver_frame-Agree_example :
    Agree
      (encode_deliver_frame [] 1 3 (b'a' ∷ []) (1 ∷ 2 ∷ []))
      (deliver_in_two_steps a_delivery [])
encode_deliver_frame-Agree_example = encode_deliver_frame-Agree a_delivery []
