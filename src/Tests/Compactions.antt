-- ===== src/Tests/Compactions.antt =====
-- Instances for the compaction of wal/src/lib.rs by a snapshot of core/src/lib.rs, and for the reading
-- of its segments.
use blipmq.Prelude.{ℕ, ◌≡◌, refl, arith, inl, List, [], ◌∷◌, none, some, true}
use blipmq.Wire.Buf.{Bytes}
use blipmq.Core.Subject.{bytes_eq}
use blipmq.Core.Checkpoint.{same_key}
use blipmq.Core.TagMap.{get}
use blipmq.Core.Config.{default_config}
use blipmq.Core.Broker.{Broker, new_broker}
use blipmq.Core.Broker.Ack.{cursor_of, current_snapshot}
use blipmq.Core.Broker.Compaction.{compact_below-owed}
use blipmq.Wire.Endian.{le_bytes}
use blipmq.Tests.Checkpoints.{sum_checksum}
use blipmq.Wal.Record.{RecordLocation}
use blipmq.Wal.Iterate.{iterate_from}
use blipmq.Wal.Iterate.From.{From, iterate_from-From}
use blipmq.Wal.Compact.{Index, Removal, removed, compact_below, contains}

abbrev name : Bytes
name = b'a' ∷ []

-- A consumer acknowledged up to 7.
abbrev a_broker : Broker
a_broker = record (new_broker default_config true) {
  ack_cursors = record { client_id = name; topic = name; wal_id = 7 } ∷ [];
}

abbrev first : RecordLocation
first = record { segment_seq = 1; offset_in_segment = 32 }

abbrev second : RecordLocation
second = record { segment_seq = 2; offset_in_segment = 32 }

-- Record 6 stands in segment 1 and record 8 in segment 2; segment 3 is being written.
abbrev an_index : Index
an_index = (6, first) ∷ (8, second) ∷ []

abbrev dir : List ℕ
dir = 1 ∷ 2 ∷ 3 ∷ []

abbrev remove_file : ℕ → Removal
remove_file seq = removed

there : get 8 an_index ≡ some second
unfolding get
there = refl

found : cursor_of name name a_broker.ack_cursors ≡ some 7
unfolding cursor_of same_key bytes_eq
found = refl

compact_below-owed_example :
    let (index', dir', _) =
      compact_below remove_file none 3 (current_snapshot a_broker).snapshot_id an_index dir in
    (get 8 index' ≡ some second) × (contains 2 dir' ≡ contains 2 dir)
compact_below-owed_example =
    compact_below-owed remove_file none 3 a_broker an_index dir 8 second name name 7 there
      (inl (found, omega arith))

-- The segments of that index, the first of which is gone.
abbrev files : List (ℕ × Bytes)
files = (2, le_bytes 32 0) ∷ (3, []) ∷ []

iterate_from-From_example : From 7 (iterate_from an_index files 7)
iterate_from-From_example = iterate_from-From an_index files 7
