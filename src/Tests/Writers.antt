-- ===== src/Tests/Writers.antt =====
-- Instances for the writer of wal/src/lib.rs, and for the log as it is opened again.
use blipmq.Prelude.{
  ℕ, ◌^◌, ◌<◌, ◌≡◌, ◌==◌, refl, sym, ap, arith, Bool-cases, inl, inr, List, [], ◌∷◌, All,
  append-nil, length, none, some, true, false, ok, subst,
}
use blipmq.Wire.Buf.{Bytes}
use blipmq.Wire.Endian.{le_bytes}
use blipmq.Core.TagMap.{get, insert, remove}
use blipmq.Tests.Checkpoints.{sum_checksum}
use blipmq.Tests.Segments.{request, second-Built}
use blipmq.Wal.Record.{WalWriteRequest, header_len, frame_batch, build_request}
use blipmq.Wal.Record.Layout.{Built}
use blipmq.Wal.Header.{write_header}
use blipmq.Wal.Writer.{
  WalConfig, WalWriter, FileSystem, answer_all, content, flush_file, and_then, batch_size, is_full,
  new_acks, overwrite, insert_all, write_batch, write_records, write_records_as, settle,
  note_records,
}
use blipmq.Wal.Writer.Run.{write, flush, Turn, collect_batch, flush_if, turn, go_on, run}
use blipmq.Wal.Writer.Layout.{segment}
use blipmq.Wal.Writer.Durable.{Writing}
use blipmq.Wal.Writer.Durable.Runs.{Recovered, Small, run-Recovered}
use blipmq.Wal.Writer.Batches.{Batched, write_batch-Batched}
use blipmq.Wal.Open.Segments.{Segment, Opened, open_with_config-Opened}

abbrev config : WalConfig
config = record {
  fsync_every_n = some 64;
  fsync_interval = none;
  channel_capacity = 4;
  segment_bytes = 100;
}

-- The file system does what it is asked.
abbrev works : FileSystem
works = record {
  full_synced = true;
  created = true;
  header_failed = none;
  records_failed = none;
  synced = true;
  now = 5;
}

-- A writer on an empty first segment.
abbrev a_writer : WalWriter
a_writer = record {
  config = config;
  files = (1, write_header) ∷ [];
  stable = (1, write_header) ∷ [];
  index = [];
  current_segment_seq = 1;
  current_offset = header_len;
  unflushed_records = 0;
  last_fsync = 0;
  append_count = 0;
  bytes_written = 0;
  pending_durable_acks = [];
  answers = [];
}

a_writer-Writing : Writing a_writer
unfolding get frame_batch
a_writer-Writing = (
  [],
  [],
  record {
    on_disk = record { disk = ap some (sym (append-nil write_header)); whole = tt; kept = tt };
    file = ap some (sym (append-nil write_header));
    offset = refl;
    built = tt;
  },
)

-- A call of `append_durable`, and one of `append`.
abbrev durable : WalWriteRequest
durable = record (request 1 (7 ∷ [])) { durable_ack = true }

abbrev lazy : WalWriteRequest
lazy = request 2 (8 ∷ 9 ∷ [])

durable-Built : Built durable
unfolding build_request
durable-Built = (omega arith, refl)

abbrev both : List WalWriteRequest
both = durable ∷ lazy ∷ []

abbrev turns : List Turn
turns =
    record { arrived = write durable ∷ write lazy ∷ flush ∷ []; batch = works; flushed = works }
    ∷ []

-- What stands on the disk after the turn.
abbrev on_disk : List (ℕ × Bytes)
on_disk = (1, segment 1 both) ∷ []

after_turn : (run turns [] a_writer).0.stable ≡ on_disk
unfolding run turn go_on collect_batch flush_if write_batch write_records write_records_as settle
    note_records is_full batch_size flush_file and_then overwrite content insert_all answer_all
    frame_batch new_acks insert remove get le_bytes write_header
after_turn = refl

single-Small : (file : Bytes) → length file < 2 ^ 64 → Small ((1, file) ∷ [])
unfolding get
single-Small file small seq bytes e = elim (Bool-cases (1 == seq)) [
  | inl same ↦ ground (arith, e, same, small)
  | inr other ↦ absurd (ground (arith, e, other))
]

both_short : length (segment 1 both) < 2 ^ 64
unfolding frame_batch le_bytes write_header
both_short = omega arith

run-Recovered_example :
    All (Recovered (run turns [] a_writer).0.stable) (run turns [] a_writer).0.answers
run-Recovered_example =
    run-Recovered turns a_writer ((durable-Built, (second-Built, (tt, tt))), tt) refl
      a_writer-Writing
      (subst (λ (stable : List (ℕ × Bytes)). Small stable) (sym after_turn)
        (single-Small (segment 1 both) both_short))

batch_ok : (write_batch works both a_writer).1 ≡ ok tt
unfolding write_batch write_records write_records_as settle note_records is_full batch_size
    flush_file new_acks frame_batch le_bytes
batch_ok = refl

write_batch-Batched_example : Batched both a_writer (write_batch works both a_writer).0
write_batch-Batched_example =
    write_batch-Batched works both a_writer refl (omega arith) (omega arith) batch_ok

-- A segment with the records, and the next one with a record behind them.
abbrev two_segments : List Segment
two_segments = (1, both) ∷ (2, request 3 (6 ∷ []) ∷ []) ∷ []

third-Built : Built (request 3 (6 ∷ []))
unfolding build_request
third-Built = (omega arith, refl)

ends :
    ((frame_batch 1 header_len both).2 < 2 ^ 64)
    × ((frame_batch 2 header_len (request 3 (6 ∷ []) ∷ [])).2 < 2 ^ 64)
unfolding frame_batch
ends = (omega arith, omega arith)

open_with_config-Opened_example : Opened config false none 9 two_segments
open_with_config-Opened_example =
    open_with_config-Opened config 9 two_segments (omega arith) (omega arith)
      ((omega arith, tt), (tt, tt))
      (
        ((durable-Built, (second-Built, tt)), (omega arith, (omega arith, tt)), ends.0),
        (((third-Built, tt), (omega arith, tt), ends.1), tt),
      )
