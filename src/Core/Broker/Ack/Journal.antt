-- ===== src/Core/Broker/Ack/Journal.antt =====
-- The record that `ack` of core/src/lib.rs hands to the write-ahead log.
use blipmq.Prelude.{
  ℕ, ◌≡◌, refl, ap, true, Option-cases, inl, inr, Option, none, some, Outcome, ok, List,
}
use blipmq.Wire.Buf.{Bytes, Buf}
use blipmq.Core.LogError.{LogError}
use blipmq.Core.WalEntry
use blipmq.Core.WalEntry.{WalEntry}
use blipmq.Core.WalEntry.RoundTrip.{wal_entry_decode-encode}
use blipmq.Core.Checkpoint.{Cursor}
use blipmq.Core.Checkpoint.RoundTrip.{CursorFits}
use blipmq.Core.Queue
use blipmq.Core.Queue.{SubscriberQueue}
use blipmq.Core.Subscriber.{Subscriber}
use blipmq.Core.Broker.{SubscriptionRef, Broker}
use blipmq.Core.Broker.Ack.{
  lookup_subscription, ack, cursor_id, raise_cursor, journal, journal_entry, ok_bytes,
}
use blipmq.Core.Broker.Ack.Cursors.{ack-journal, acked-none}

abbrev pub ack_entry : Cursor → WalEntry
ack_entry c =
    WalEntry.ack (record { client_id = c.client_id; topic = c.topic; acked_wal_id = c.wal_id })

abbrev cursor_at : SubscriptionRef → Subscriber → Option (Option ℕ) → Option Cursor
cursor_at r s none = none
cursor_at r s (some none) = none
cursor_at r s (some (some wal_id)) =
    some (record { client_id = cursor_id r s; topic = r.topic; wal_id = wal_id })

-- The consumer and the log id that an acknowledgement stands for.
abbrev pub acknowledged : ℕ → ℕ → Broker → Option Cursor
acknowledged id tag b = elim (lookup_subscription id b) [
  | none ↦ none
  | some (r, s) ↦ cursor_at r s (Queue.ack tag s.queue).1
]

-- What an acknowledgement does to the cursors and the log of a broker that has one.
pub data Journaled ⦃w : Buf⦄ (b : Broker) (after : Broker) (out : Option Bytes) : Type 0 where
  silent : after.ack_cursors ≡ b.ack_cursors → after.wal ≡ true → out ≡ none → Journaled b after out
  entry :
      (c : Cursor) (bytes : Bytes)
      → ◌≡◌ {A = List Cursor} after.ack_cursors (raise_cursor c b.ack_cursors)
      → after.wal ≡ true
      → out ≡ some bytes
      → ◌≡◌ {A = Outcome LogError WalEntry} (WalEntry.decode bytes) (ok (ack_entry c))
      → Journaled b after out

pub ack-Journaled :
    ⦃w : Buf⦄ (id tag : ℕ) (b : Broker)
    → b.wal ≡ true
    → ((c : Cursor) → acknowledged id tag b ≡ some c → CursorFits c)
    → Journaled b (ack id tag b).0 (ack id tag b).2
unfolding ack journal journal_entry ok_bytes
ack-Journaled id tag b log fits = elim (Option-cases (lookup_subscription id b)) [
  | inl absent ↦ rw (absent, ack) (silent refl log refl)
  | inr ((r, s), e) ↦ elim (Option-cases (Queue.ack tag s.queue).1) [
    | inl unknown ↦
        rw (e, ack)
          (rw (acked-none id r s b (Queue.ack tag s.queue).0 _ unknown) (silent refl log refl))
    | inr (none, known) ↦ rw (ack-journal id tag b r s none e known) (silent refl log refl)
    | inr (some wal_id, known) ↦
        let c : Cursor = record { client_id = cursor_id r s; topic = r.topic; wal_id = wal_id } in
        let (bytes, enc, dec) =
          wal_entry_decode-encode (ack_entry c)
            (fits c (rw (e, acknowledged) (ap (cursor_at r s) known))) in
        rw (ack-journal id tag b r s (some wal_id) e known)
          (entry c bytes refl log (rw (log, enc) refl) dec)
  ]
]
