-- ===== src/Core/Broker/Replay/Keeps.antt =====
-- The replays of core/src/lib.rs keep the registry.
use blipmq.Prelude.{ℕ, not, if-holds, List, Option, Outcome, ok, err, panic}
use blipmq.Wire.Buf.{Buf}
use blipmq.Core.LogError.{LogError}
use blipmq.Core.Checkpoint.{Cursor, CheckpointSnapshot}
use blipmq.Core.Broker.{Broker}
use blipmq.Core.Broker.Registry.{
  IsRegistry, store-IsRegistry, buffers-IsRegistry, cursors-IsRegistry,
}
use blipmq.Wal.Record.{WalRecord}
use blipmq.Core.Broker.Replay.{recover, replay_from_wal_with_checkpoint}

recover-IsRegistry :
    ⦃w : Buf⦄ (now : ℕ) (saved : List Cursor) (b : Broker)
    (read : Outcome LogError (List WalRecord))
    → IsRegistry b
    → IsRegistry (recover now saved b read).0
unfolding recover
recover-IsRegistry now saved b (ok records) v =
    cursors-IsRegistry (record b { store = _; buffers = _ }) _
      (buffers-IsRegistry (record b { store = _ }) _ (store-IsRegistry b _ v))
recover-IsRegistry now saved b (err e) v = v
recover-IsRegistry now saved b panic v = v

pub replay_from_wal_with_checkpoint-IsRegistry :
    ⦃w : Buf⦄ (iterate : ℕ → Outcome LogError (List WalRecord)) (now : ℕ)
    (checkpoint : Option CheckpointSnapshot) (b : Broker)
    → IsRegistry b
    → IsRegistry (replay_from_wal_with_checkpoint iterate now checkpoint b).0
unfolding replay_from_wal_with_checkpoint
replay_from_wal_with_checkpoint-IsRegistry iterate now checkpoint b v =
    if-holds (λ (r : Broker × Outcome LogError (Unit {0})). IsRegistry r.0) (not b.wal) _ _ (λ _. v)
      (λ _. recover-IsRegistry now _ b _ v)
