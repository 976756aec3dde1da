-- ===== src/Tests/Cursors.antt =====
-- Instances for the acknowledgements and the replay of `Broker` in core/src/lib.rs.
use blipmq.Prelude.{
  ℕ, ◌≡◌, ◌⊎◌, refl, sym, ap, subst, ◌∙◌, arith, true, false, List, [], ◌∷◌, Option, none, some,
  Outcome, ok,
}
use blipmq.Wire.Buf.{Bytes}
use blipmq.Wire.BigEndian.{big_endian}
use blipmq.Wire.Utf8.{IsUtf8, is_utf8}
use blipmq.Core.LogError.{LogError, at_least_once}
use blipmq.Core.WalEntry
use blipmq.Core.WalEntry.{WalEntry, WalMessageRecord, message}
use blipmq.Core.WalEntry.RoundTrip.{wal_entry_decode-encode}
use blipmq.Core.Checkpoint.{Cursor}
use blipmq.Core.Checkpoint.RoundTrip.{CursorFits}
use blipmq.Core.TagMap.{get}
use blipmq.Core.Config.{default_config}
use blipmq.Core.Queue
use blipmq.Core.Queue.{QueueEntry}
use blipmq.Core.Subscriber.{Subscriber}
use blipmq.Core.Broker.{Topic, Broker, new_broker}
use blipmq.Core.Broker.Ack.{ack, lookup_subscription, cursor_id}
use blipmq.Core.Broker.Ack.Cursors.{Moved, Unknown, ack-moves}
use blipmq.Core.Broker.Ack.Journal.{acknowledged}
use blipmq.Wal.Record.{WalRecord}
use blipmq.Core.Broker.Replay.{replay_from_wal}
use blipmq.Core.Broker.Replay.Cursors.{
  run_acks, RunFits, Holding, empty, journaled, published, replay_from_wal-run_acks,
}

abbrev name : Bytes
name = b'a' ∷ b'.' ∷ b'b' ∷ []

name-IsUtf8 : IsUtf8 name
unfolding is_utf8
name-IsUtf8 = refl

-- A message in flight under tag 1, which the log holds as number 7.
abbrev in_flight : QueueEntry
in_flight = record {
  tag = 1;
  payload = 65 ∷ [];
  qos = at_least_once;
  created_at = 0;
  ttl = none;
  wal_id = some 7;
  delivery_attempts = 1;
  next_delivery_at = 50;
}

abbrev a_subscriber : Subscriber
a_subscriber = record {
  client_id = name;
  queue = record {
    default_qos = at_least_once;
    capacity = 4;
    inner = record {
      pending = [];
      pending_entries = [];
      inflight = (1, in_flight) ∷ [];
      expiration_heap = [];
      retry_heap = [];
      next_tag = 2;
    };
  };
  push_sender = none;
  push_slot = none;
  push_next_tag = 1;
}

abbrev a_topic : Topic
a_topic = record {
  name = name;
  subscribers = 1 ∷ [];
  consumer_groups = [];
  published_total = 0;
  delivered_total = 0;
}

abbrev a_broker : Broker
a_broker = record (new_broker default_config true) {
  store = (1, a_subscriber) ∷ [];
  topics = (name, a_topic) ∷ [];
  subscriptions = (1, record { topic = name; group = none }) ∷ [];
}

ack-moves_example :
    Moved 1 1 a_broker name name
    ⊎ ((ack 1 1 a_broker ≡ (a_broker, false, none)) × Unknown 1 1 a_broker)
ack-moves_example = ack-moves 1 1 a_broker name name

abbrev the_cursor : Cursor
the_cursor = record { client_id = name; topic = name; wal_id = 7 }

acknowledged_one : acknowledged 1 1 a_broker ≡ some the_cursor
unfolding get lookup_subscription cursor_id Queue.ack
acknowledged_one = refl

or_the_cursor : Option Cursor → Cursor
or_the_cursor none = the_cursor
or_the_cursor (some c) = c

run-RunFits : RunFits ((1, 1) ∷ []) a_broker
unfolding or_the_cursor
run-RunFits = (
  λ c e.
      subst CursorFits (ap or_the_cursor (sym acknowledged_one ∙ e))
        (omega arith, name-IsUtf8, omega arith, name-IsUtf8, omega arith),
  tt,
)

abbrev a_message : WalMessageRecord
a_message = record { topic = name; qos = at_least_once; payload = 66 ∷ [] }

-- The bytes of the message in the log.
message_bytes :
    (bytes : Bytes) × (WalEntry.encode (message a_message) ≡ ok bytes)
    × (WalEntry.decode bytes ≡ ok (message a_message))
message_bytes = wal_entry_decode-encode (message a_message) (omega arith, name-IsUtf8)

abbrev of_bytes : List Bytes → List WalRecord
of_bytes [] = []
of_bytes (bytes ∷ rest) = record { id = 9; payload = bytes } ∷ of_bytes rest

of_bytes-Holding : (outs : List Bytes) → Holding outs (of_bytes outs)
of_bytes-Holding [] = empty
of_bytes-Holding (bytes ∷ outs) = journaled 9 bytes (of_bytes-Holding outs)

-- A message, and then what one acknowledgement journals.
abbrev a_log : List WalRecord
a_log = record { id = 8; payload = message_bytes.0 } ∷ of_bytes (run_acks ((1, 1) ∷ []) a_broker).1

abbrev restarted : Broker
restarted = new_broker default_config true

log-Holding : Holding (run_acks ((1, 1) ∷ []) a_broker).1 a_log
log-Holding =
    published 8 message_bytes.0 a_message message_bytes.2
      (of_bytes-Holding (run_acks ((1, 1) ∷ []) a_broker).1)

restarted_log : (restarted.wal ≡ true) × (restarted.ack_cursors ≡ [])
unfolding new_broker
restarted_log = (refl, refl)

abbrev iterate : ℕ → Outcome LogError (List WalRecord)
iterate from_id = ok a_log

replay_from_wal-run_acks_example :
    ((replay_from_wal iterate 5 restarted).1 ≡ ok tt)
    × ((replay_from_wal iterate 5 restarted).0.ack_cursors
        ≡ (run_acks ((1, 1) ∷ []) a_broker).0.ack_cursors)
replay_from_wal-run_acks_example =
    replay_from_wal-run_acks ((1, 1) ∷ []) a_broker restarted 5 iterate a_log restarted_log.0
      restarted_log.1 run-RunFits log-Holding restarted_log.0 restarted_log.1 refl
