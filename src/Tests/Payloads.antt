-- ===== src/Tests/Payloads.antt =====
-- Runs and instances for the payloads of net/src/frame.rs.
use blipmq.Prelude.{true, false, ◌≡◌, refl, arith, some, none, [], ◌∷◌, ok, bit_and}
use blipmq.Wire.Buf.{Bytes}
use blipmq.Wire.BigEndian.{big_endian}
use blipmq.Wire.Endian.{from_le_bytes}
use blipmq.Wire.Utf8.{IsUtf8, is_utf8}
use blipmq.Wire.Cursor.{get_uint, slice}
use blipmq.Net.Payload.Nack
use blipmq.Net.Payload.Publish
use blipmq.Net.Payload.Subscribe
use blipmq.Net.Payload.Publish.{PublishPayload}
use blipmq.Net.Payload.Subscribe.{SubscribePayload}
use blipmq.Net.Payload.Deliver.{DeliverPayload}
use blipmq.Net.Payload.Nack.{NackPayload, nack_decode-encode}
use blipmq.Net.Payload.Publish.RoundTrip.{publish_decode-encode}
use blipmq.Net.Payload.Subscribe.RoundTrip.{subscribe_decode-encode}

abbrev topic : Bytes
topic = b'a' ∷ b'.' ∷ b'b' ∷ []

topic-IsUtf8 : IsUtf8 topic
unfolding is_utf8
topic-IsUtf8 = refl

-- A two-byte character is accepted, and a cut one is not.
two_bytes : is_utf8 (0xc3 ∷ 0xa9 ∷ []) ≡ true
unfolding is_utf8
two_bytes = refl

cut_character : is_utf8 (0xc3 ∷ []) ≡ false
unfolding is_utf8
cut_character = refl

abbrev a_publish : PublishPayload
a_publish = record {
  topic = topic;
  qos = 1;
  message = 7 ∷ [];
  ttl_ms = some 500;
  partition_key = some (b'k' ∷ []);
}

publish_decode-encode_example :
    (wire : Bytes) × (Publish.encode a_publish ≡ ok wire)
    × (Publish.decode wire ≡ ok (record a_publish { qos = bit_and 1 0x03 }))
publish_decode-encode_example =
    publish_decode-encode a_publish (omega arith) (omega arith) (omega arith) (omega arith)
      topic-IsUtf8

-- The wire form of a publish without optional fields, and its payload.
abbrev plain_wire : Bytes
plain_wire = 1 ∷ 0 ∷ 3 ∷ b'a' ∷ b'.' ∷ b'b' ∷ 7 ∷ []

abbrev plain : PublishPayload
plain = record a_publish { ttl_ms = none; partition_key = none }

decode-plain : Publish.decode plain_wire ≡ ok plain
unfolding Publish.decode Publish.read_ttl Publish.read_key Publish.read_body get_uint slice is_utf8
    from_le_bytes
decode-plain = refl

abbrev a_subscribe : SubscribePayload
a_subscribe = record { topic = topic; qos = 1; group = some topic; from_offset = some 12 }

subscribe_decode-encode_example :
    (wire : Bytes) × (Subscribe.encode a_subscribe ≡ ok wire)
    × (Subscribe.decode wire ≡ ok (record a_subscribe { qos = bit_and 1 0x03 }))
subscribe_decode-encode_example =
    subscribe_decode-encode a_subscribe (omega arith) (omega arith, topic-IsUtf8) (omega arith)
      (omega arith) topic-IsUtf8

abbrev a_delivery : DeliverPayload
a_delivery = record { qos = 1; delivery_tag = 3; topic = topic; message = 1 ∷ 2 ∷ [] }

abbrev a_nack : NackPayload
a_nack = record { code = 400; message = topic }

nack_round_trip : (wire : Bytes) × (Nack.encode a_nack ≡ ok wire) × (Nack.decode wire ≡ ok a_nack)
nack_round_trip = nack_decode-encode a_nack (omega arith) (omega arith) topic-IsUtf8
