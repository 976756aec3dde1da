-- ===== src/Tests/Connections.antt =====
-- Instances for the connection of net/src/connection.rs and the keys of auth/src/lib.rs.
use blipmq.Prelude.{
  ℕ, ◌⊎◌, ◌<◌, ◌≡◌, refl, arith, Bool, Bool-cases, true, false, inl, inr, List, [], ◌∷◌, ◌++◌, none,
  ok,
}
use blipmq.Wire.Buf.{Bytes}
use blipmq.Wire.BigEndian.{big_endian}
use blipmq.Wire.Endian.{from_le_bytes}
use blipmq.Wire.Utf8.{is_utf8}
use blipmq.Wire.Cursor.{get_uint, slice}
use blipmq.Auth.{from_keys, validate, new}
use blipmq.Core.LogError.{at_most_once, at_least_once}
use blipmq.Core.Config.{default_config}
use blipmq.Core.Broker.{Broker, new_broker}
use blipmq.Core.Subscriber.{PushSlot}
use blipmq.Net.Frame.{Frame, FrameType}
use blipmq.Net.Payload.Publish
use blipmq.Net.Payload.Publish.{PublishPayload}
use blipmq.Net.Server.{World, validate_topic, has_nul, qos_from_u8}
use blipmq.Net.Server.Total.{IsCalm}
use blipmq.Net.Server.Cache.{PublishTopicCache}
use blipmq.Net.Server.Cache.Coherent.{IsCoherent, empty_cache-IsCoherent}
use blipmq.Net.Server.Publish.{is_durable}
use blipmq.Net.Server.Publish.Routes.{published}
use blipmq.Net.Connection as Connection
use blipmq.Net.Connection.{ReaderState, Round, Session, Event, chunk, respond, process_frame, run}
use blipmq.Net.Connection.Keeps.Login.{IsLogin}
use blipmq.Net.Connection.Keeps.Frames.{login}
use blipmq.Net.Connection.Keeps.Runs.{run-IsLogin, run-broker}
use blipmq.Net.Connection.Keeps.Total.{Ends, run-Ends}
use blipmq.Net.Connection.Publishes.{
  IsPublish, LoggedHere, AnsweredHere, process_frame-published, process_frame-logged,
}

abbrev a_key : Bytes
a_key = b'k' ∷ b'1' ∷ []

abbrev another_key : Bytes
another_key = b'k' ∷ b'2' ∷ []

abbrev validator : Bytes → Bool
validator key = validate (from_keys (a_key ∷ [])) (new key)

-- HELLO with version 2, and AUTH with a key.
abbrev hello_bytes : Bytes
hello_bytes = 0 ∷ 0 ∷ 0 ∷ 11 ∷ 1 ∷ 0 ∷ 0 ∷ 0 ∷ 0 ∷ 0 ∷ 0 ∷ 0 ∷ 1 ∷ 0 ∷ 2 ∷ []

abbrev auth_bytes : Bytes → Bytes
auth_bytes key = (0 ∷ 0 ∷ 0 ∷ 13 ∷ 2 ∷ 0 ∷ 0 ∷ 0 ∷ 0 ∷ 0 ∷ 0 ∷ 0 ∷ 2 ∷ 0 ∷ 2 ∷ []) ++ key

abbrev a_world : World
a_world = record {
  now = 0;
  hash = λ key. 0;
  append = λ bytes b. (b, ok 7);
  iterate = λ id. ok [];
  display = λ e. [];
}

abbrev a_round : Round
a_round = record { world = a_world; writer_open = true }

-- The bytes arrive in two reads, the second one in the middle of the AUTH frame.
abbrev some_events : List Event
some_events =
    chunk (λ n. a_round) (hello_bytes ++ (0 ∷ 0 ∷ []))
    ∷ chunk (λ n. a_round) (0 ∷ 13 ∷ 2 ∷ 0 ∷ 0 ∷ 0 ∷ 0 ∷ 0 ∷ 0 ∷ 0 ∷ 2 ∷ 0 ∷ 2 ∷ b'k' ∷ b'1' ∷ [])
    ∷ []

abbrev a_slot : PushSlot
a_slot = record { address = 1; encoder = λ buf qos tag topic payload. buf }

abbrev a_broker : Broker
a_broker = new_broker default_config true

abbrev a_session : Session
a_session = record { reader = Connection.new 3 a_slot; broker = a_broker }

run-IsLogin_example :
    let (s, ending) = run validator some_events a_session in
    IsLogin validator (login s.reader) × (ending ≡ none → s.reader.auth_failures < 5)
run-IsLogin_example = run-IsLogin validator some_events 3 a_slot a_broker

abbrev no_key : Bytes → Bool
no_key key = false

outside : (run no_key some_events a_session).0.reader.authenticated ≡ false
outside = elim (Bool-cases (run no_key some_events a_session).0.reader.authenticated) [
  | inl inside ↦
      let (key, accepted) = (run-IsLogin no_key some_events 3 a_slot a_broker).0.accepted inside in
      absurd (ground arith)
  | inr e ↦ e
]

run-broker_example : (run no_key some_events a_session).0.broker ≡ a_broker
run-broker_example = run-broker no_key some_events 3 a_slot a_broker outside

a_world-IsCalm : IsCalm a_world
a_world-IsCalm = record { append-Returns = λ bytes b. tt; iterate-Returns = λ id. tt }

run-Ends_example : Ends validator (run validator some_events a_session).1
run-Ends_example =
    run-Ends validator some_events a_session (λ n. a_world-IsCalm, (λ n. a_world-IsCalm, tt))

abbrev topic : Bytes
topic = b'a' ∷ []

abbrev payload_of : ℕ → PublishPayload
payload_of qos = record {
  topic = topic;
  qos = qos;
  message = 7 ∷ [];
  ttl_ms = none;
  partition_key = none;
}

abbrev publish_frame : ℕ → Frame
publish_frame qos = record {
  msg_type = FrameType.publish;
  correlation_id = 4;
  payload = qos ∷ 0 ∷ 1 ∷ b'a' ∷ 7 ∷ [];
}

plain-IsPublish : IsPublish (publish_frame 0) (payload_of 0) at_most_once
unfolding Publish.decode Publish.read_ttl Publish.read_key Publish.read_body get_uint slice is_utf8
    from_le_bytes validate_topic has_nul qos_from_u8
plain-IsPublish = record { typed = refl; read = refl; fine = refl; level = refl }

durable-IsPublish : IsPublish (publish_frame 1) (payload_of 1) at_least_once
unfolding Publish.decode Publish.read_ttl Publish.read_key Publish.read_body get_uint slice is_utf8
    from_le_bytes validate_topic has_nul qos_from_u8
durable-IsPublish = record { typed = refl; read = refl; fine = refl; level = refl }

abbrev logged_in : Session
logged_in = record a_session {
  reader = record a_session.reader { hello_performed = true; authenticated = true };
}

inside : logged_in.reader.authenticated ≡ true
unfolding Connection.new
inside = refl

coherent : IsCoherent logged_in.reader.topic_cache
unfolding Connection.new
coherent = empty_cache-IsCoherent

plain : is_durable at_most_once logged_in.broker ≡ false
unfolding is_durable
plain = refl

lasting : is_durable at_least_once logged_in.broker ≡ true
unfolding is_durable new_broker
lasting = refl

process_frame-published_example :
    (cache : PublishTopicCache) × IsCoherent cache
    × (process_frame validator a_round (publish_frame 0) logged_in ≡ (
      record {
        reader = record logged_in.reader { topic_cache = cache };
        broker = published a_world (payload_of 0) at_most_once logged_in.broker;
      },
      ok tt,
    ))
process_frame-published_example =
    process_frame-published validator a_round (publish_frame 0) logged_in (payload_of 0)
      at_most_once plain-IsPublish inside coherent plain

process_frame-logged_example :
    LoggedHere validator a_round
      (publish_frame 1)
      logged_in
      (payload_of 1)
      at_least_once
      durable-IsPublish
      inside
    ⊎ AnsweredHere validator a_round
        (publish_frame 1)
        logged_in
        (payload_of 1)
        at_least_once
        durable-IsPublish
        inside
process_frame-logged_example =
    process_frame-logged validator a_round (publish_frame 1) logged_in (payload_of 1) at_least_once
      durable-IsPublish inside lasting
