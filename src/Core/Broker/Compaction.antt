-- ===== src/Core/Broker/Compaction.antt =====
-- The compaction of the log by the id of a snapshot: `compact_below` of wal/src/lib.rs with
-- `current_snapshot` of core/src/lib.rs.
use blipmq.Prelude.{ℕ, ◌≤◌, ◌<◌, ◌≡◌, ◌⊎◌, inl, inr, ap, ◌∙◌, arith, List, Option, some}
use blipmq.Wire.Buf.{Bytes}
use blipmq.Core.LogError.{LogError}
use blipmq.Core.Checkpoint.{Cursor}
use blipmq.Core.TagMap.{get}
use blipmq.Core.Broker.{Broker}
use blipmq.Core.Broker.Ack.{cursor_of, current_snapshot}
use blipmq.Core.Broker.Ack.Cursors.{current_snapshot-least, cursor_of-All}
use blipmq.Wal.Record.{RecordLocation}
use blipmq.Wal.Compact.{Index, Removal, compact_below, contains}
use blipmq.Wal.Compact.Safe.{compact_below-kept}

-- When the log is compacted by the id of the broker's snapshot, every record that lies behind the
-- cursor of some consumer is kept, and so is every record of the segment that is being written: the
-- index still has its place, and its segment is in the directory if it was, whatever the file system
-- answers and wherever an error ends the deleting.
pub compact_below-owed :
    (remove_file : ℕ → Removal) (list_fails : Option LogError) (active : ℕ) (b : Broker)
    (index : Index) (dir : List ℕ) (id : ℕ) (loc : RecordLocation) (client_id topic : Bytes)
    (cursor : ℕ)
    → get id index ≡ some loc
    → ((cursor_of client_id topic b.ack_cursors ≡ some cursor) × (cursor < id))
      ⊎ (loc.segment_seq ≡ active)
    → let (index', dir', _) =
        compact_below remove_file list_fails active (current_snapshot b).snapshot_id index dir in
      (get id index' ≡ some loc) × (contains loc.segment_seq dir' ≡ contains loc.segment_seq dir)
compact_below-owed remove_file list_fails active b index dir id loc client_id topic cursor h why =
    compact_below-kept remove_file list_fails active (current_snapshot b).snapshot_id index dir id
      loc h
      (elim why [
        | inl (e, behind) ↦
            let least = current_snapshot-least b in
            let low : (current_snapshot b).snapshot_id ≤ cursor =
              cursor_of-All (current_snapshot b).snapshot_id client_id topic
                (current_snapshot b).cursors cursor least.1
                (ap (λ (cs : List Cursor). cursor_of client_id topic cs) least.0 ∙ e) in
            inl (omega (arith, low, behind))
        | inr writing ↦ inr writing
      ])
