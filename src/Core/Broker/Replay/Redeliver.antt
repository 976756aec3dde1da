-- ===== src/Core/Broker/Replay/Redeliver.antt =====
-- What the second pass of `replay_from_wal_with_checkpoint` of core/src/lib.rs gives one subscriber.
use mathlib.Core.Option
use blipmq.Prelude.{ℕ, zero, suc, ◌≡◌, leb, List, [], ◌∷◌, Option, none, some, if◌then◌else◌}
use blipmq.Wire.Buf.{Bytes, Buf}
use blipmq.Core.LogError.{LogError}
use blipmq.Core.WalEntry.{WalMessageRecord}
use blipmq.Core.Subject.{bytes_eq}
use blipmq.Core.Checkpoint.{Cursor}
use blipmq.Core.NameMap.{find}
use blipmq.Core.Config.{BrokerConfig}
use blipmq.Core.Subscriber.{Subscriber}
use blipmq.Core.Broker.{Broker}
use blipmq.Core.Broker.Ack.{cursor_of}
use blipmq.Core.Broker.Publish.Fanout.{occurrences}
use blipmq.Wal.Record.{WalRecord}
use blipmq.Core.Broker.Replay.{replayed, message_of, redeliver, members_of, or_zero}

abbrev times : ℕ → (Subscriber → Subscriber) → Subscriber → Subscriber
times zero f s = s
times (suc n) f s = times n f (f s)

-- The messages of a topic behind a cursor, with their ids.
abbrev keep_unacked :
    ℕ
    → Bytes
    → ℕ
    → Option WalMessageRecord
    → List (ℕ × WalMessageRecord)
    → List (ℕ × WalMessageRecord)
keep_unacked cursor topic id none ms = ms
keep_unacked cursor topic id (some m) ms =
    if bytes_eq m.topic topic then (if leb id cursor then ms else (id, m) ∷ ms) else ms

abbrev pub unacked : ⦃w : Buf⦄ → ℕ → Bytes → List WalRecord → List (ℕ × WalMessageRecord)
unacked cursor topic [] = []
unacked cursor topic (r ∷ rs) =
    keep_unacked cursor topic r.id (message_of r) (unacked cursor topic rs)

abbrev pub redeliver_each : BrokerConfig → ℕ → List (ℕ × WalMessageRecord) → Subscriber → Subscriber
redeliver_each c now [] s = s
redeliver_each c now ((id, m) ∷ ms) s = redeliver_each c now ms (redeliver (replayed c now id m) s)

-- The subscriber stands once among those of its topic, and in no other topic.
abbrev pub OnlyIn : ℕ → Bytes → Broker → Type 0
OnlyIn id topic b =
    (t : Bytes)
    → occurrences id (members_of (find t b.topics)) ≡ (if bytes_eq t topic then 1 else 0)

module _ ⦃w : Buf⦄ (cursors : List Cursor) (now : ℕ) (b : Broker) (id : ℕ) (client_id topic : Bytes)
    (only : OnlyIn id topic b) where
  abbrev behind : ℕ
  behind = or_zero (cursor_of client_id topic cursors)

  abbrev each : List (ℕ × WalMessageRecord) → Subscriber → Subscriber
  each ms s = redeliver_each b.config now ms s
