-- ===== src/Core/Broker/Replay/Cursors.antt =====
-- What the first pass of `replay_from_wal_with_checkpoint` of core/src/lib.rs recovers: the cursors
-- that the acknowledgements before the restart had left.
use blipmq.Prelude.{
  ℕ, ◌≡◌, refl, sym, ap, ◌∙◌, subst, true, List, [], ◌∷◌, Option, none, some, Outcome, ok, err,
  panic, All, ◌++◌, append-nil, append_assoc,
}
use blipmq.Wire.Buf.{Bytes, Buf}
use blipmq.Core.LogError.{LogError}
use blipmq.Core.WalEntry
use blipmq.Core.WalEntry.{WalEntry, WalMessageRecord, message}
use blipmq.Core.Checkpoint.{Cursor}
use blipmq.Core.Checkpoint.RoundTrip.{CursorFits, Distinct, New, All-New-snoc}
use blipmq.Core.Broker.{Broker}
use blipmq.Core.Broker.Ack.{ack, raise_cursor}
use blipmq.Core.Broker.Ack.Keys.{raise_cursor-Distinct, raise_cursor-New}
use blipmq.Core.Broker.Ack.Journal.{ack_entry, acknowledged, silent, entry, ack-Journaled}
use blipmq.Wal.Record.{WalRecord}
use blipmq.Core.Broker.Replay.{
  refine, refine_all, raise_all, recover, start_of, replay_from_wal_with_checkpoint,
  replay_from_wal,
}

abbrev cons_some : Option Bytes → List Bytes → List Bytes
cons_some none out = out
cons_some (some bytes) out = bytes ∷ out

-- A run of acknowledgements, each of a subscription and a tag: the broker after it, and the records
-- that it handed to the log.
abbrev pub run_acks : ⦃w : Buf⦄ → List (ℕ × ℕ) → Broker → Broker × List Bytes
run_acks [] b = (b, [])
run_acks ((id, tag) ∷ ops) b =
    let (b', _, out) = ack id tag b in
    let (after, outs) = run_acks ops b' in (after, cons_some out outs)

-- The strings and ids of every acknowledgement of the run fit the fields of their record.
abbrev pub RunFits : ⦃w : Buf⦄ → List (ℕ × ℕ) → Broker → Type 0
RunFits [] b = Unit
RunFits ((id, tag) ∷ ops) b =
    ((c : Cursor) → acknowledged id tag b ≡ some c → CursorFits c) × RunFits ops (ack id tag b).0

-- A log that holds the records in their order, with messages between them.
pub data Holding ⦃w : Buf⦄ : List Bytes → List WalRecord → Type 0 where
  empty : Holding [] []
  journaled :
      {outs : List Bytes} {rs : List WalRecord} (id : ℕ) (bytes : Bytes)
      → Holding outs rs
      → Holding (bytes ∷ outs) (record { id = id; payload = bytes } ∷ rs)
  published :
      {outs : List Bytes} {rs : List WalRecord} (id : ℕ) (bytes : Bytes) (m : WalMessageRecord)
      → ◌≡◌ {A = Outcome LogError WalEntry} (WalEntry.decode bytes) (ok (message m))
      → Holding outs rs
      → Holding outs (record { id = id; payload = bytes } ∷ rs)

Holding-nil :
    ⦃w : Buf⦄ (rs : List WalRecord) (cs : List Cursor) → Holding [] rs → refine_all rs cs ≡ cs
unfolding refine_all refine
Holding-nil [] cs empty = refl
Holding-nil (r ∷ rs) cs (published id bytes m e h) = rw e (Holding-nil rs cs h)

-- The log up to and with the next record of an acknowledgement, and what is left.
Holding-cons :
    ⦃w : Buf⦄ (c : Cursor) (bytes : Bytes) (outs : List Bytes) (rs : List WalRecord)
    → ◌≡◌ {A = Outcome LogError WalEntry} (WalEntry.decode bytes) (ok (ack_entry c))
    → Holding (bytes ∷ outs) rs
    → (rest : List WalRecord) × Holding outs rest
      × ((cs : List Cursor) → refine_all rs cs ≡ refine_all rest (raise_cursor c cs))
unfolding refine_all refine
Holding-cons c bytes outs [] e h = elim h [ ]
Holding-cons c bytes outs (r ∷ rs) e (journaled id _ h) = (rs, h, λ cs. rw e refl)
Holding-cons c bytes outs (r ∷ rs) e (published id other m d h) =
    let (rest, h, step) = Holding-cons c bytes outs rs e h in (rest, h, λ cs. rw d (step cs))

-- Reading such a log gives the cursors that the run of acknowledgements left.
refine_all-run_acks :
    ⦃w : Buf⦄ (ops : List (ℕ × ℕ)) (b : Broker) (rs : List WalRecord)
    → b.wal ≡ true
    → RunFits ops b
    → Holding (run_acks ops b).1 rs
    → refine_all rs b.ack_cursors ≡ (run_acks ops b).0.ack_cursors
refine_all-run_acks [] b rs log fits h = Holding-nil rs b.ack_cursors h
refine_all-run_acks ((id, tag) ∷ ops) b rs log fits h = elim (ack-Journaled id tag b log fits.0) [
  | silent same log' no_entry ↦
      ap (refine_all rs) (sym same)
      ∙ refine_all-run_acks ops (ack id tag b).0 rs log' fits.1
          (subst (λ out. Holding (cons_some out (run_acks ops (ack id tag b).0).1) rs) no_entry h)
  | entry c bytes raised log' out dec ↦
      let b' : Broker = (ack id tag b).0 in
      let (rest, h', step) =
        Holding-cons c bytes (run_acks ops b').1 rs dec
          (subst (λ out. Holding (cons_some out (run_acks ops b').1) rs) out h) in
      step b.ack_cursors
      ∙ ap (refine_all rest) (sym raised)
      ∙ refine_all-run_acks ops b' rest log' fits.1 h'
]

refine-Distinct :
    (o : Outcome LogError WalEntry) (cs : List Cursor) → Distinct cs → Distinct (refine o cs)
unfolding refine
refine-Distinct (ok (message m)) cs h = h
refine-Distinct (ok (WalEntry.ack a)) cs h = raise_cursor-Distinct _ cs h
refine-Distinct (err e) cs h = h
refine-Distinct panic cs h = h

refine_all-Distinct :
    ⦃w : Buf⦄ (rs : List WalRecord) (cs : List Cursor) → Distinct cs → Distinct (refine_all rs cs)
unfolding refine_all
refine_all-Distinct [] cs h = h
refine_all-Distinct (r ∷ rs) cs h =
    refine_all-Distinct rs (refine (WalEntry.decode r.payload) cs)
      (refine-Distinct (WalEntry.decode r.payload) cs h)

New-nil : (cs : List Cursor) → All (New []) cs
New-nil [] = tt
New-nil (c ∷ cs) = (tt, New-nil cs)

raise_all-New :
    (cs live : List Cursor) → Distinct cs → All (New live) cs → raise_all cs live ≡ live ++ cs
unfolding raise_all
raise_all-New [] live d n = sym (append-nil live)
raise_all-New (c ∷ cs) live d n = rw (raise_cursor-New c live n.0) (
    raise_all-New cs (live ++ (c ∷ [])) d.1 (All-New-snoc live c cs n.1 d.0)
    ∙ append_assoc live (c ∷ []) cs)

-- A broker with a log and no cursors runs acknowledgements whose entries fit their length fields. A
-- restarted broker with a log, no cursors and no checkpoint reads records among which the entries of all
-- those acknowledgements stand in order, none of them lost, with messages between them. It ends with the
-- very cursors that the first one had.
pub replay_from_wal-run_acks :
    ⦃w : Buf⦄ (ops : List (ℕ × ℕ)) (b restarted : Broker) (now : ℕ)
    (iterate : ℕ → Outcome LogError (List WalRecord)) (records : List WalRecord)
    → b.wal ≡ true
    → b.ack_cursors ≡ []
    → RunFits ops b
    → Holding (run_acks ops b).1 records
    → restarted.wal ≡ true
    → restarted.ack_cursors ≡ []
    → iterate 1 ≡ ok records
    → ((replay_from_wal iterate now restarted).1 ≡ ok tt)
      × ((replay_from_wal iterate now restarted).0.ack_cursors ≡ (run_acks ops b).0.ack_cursors)
unfolding replay_from_wal replay_from_wal_with_checkpoint recover start_of
replay_from_wal-run_acks ops b restarted now iterate records log none_yet fits h log' fresh reads =
    let cs : List Cursor = refine_all records [] in
    let same : ◌≡◌ {A = List Cursor} cs (run_acks ops b).0.ack_cursors =
      subst (λ (start : List Cursor). refine_all records start ≡ (run_acks ops b).0.ack_cursors)
        none_yet (refine_all-run_acks ops b records log fits h) in
    let merged : ◌≡◌ {A = List Cursor} (raise_all cs []) cs =
      raise_all-New cs [] (refine_all-Distinct records [] tt) (New-nil cs) in
    rw (log', reads) (refl, rw fresh (merged ∙ same))
