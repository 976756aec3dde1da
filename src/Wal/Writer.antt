-- ===== src/Wal/Writer.antt =====
-- wal/src/lib.rs, `WalWriter`: the batches of the writer task, the rolling of segments and the fsyncs
-- that answer `append_durable`. `files` are the segments as a read sees them. `stable` is what is sure to
-- stand on the disk: `sync_data` copies the segment that is open, and bytes that were not synced may
-- or may not follow it there. What the file system answers is an argument.
pub mod Run
pub mod Layout
pub mod Durable
pub mod Batches
use Prim.Native.Nat.{min}
use blipmq.Prelude.{
  ℕ, zero, suc, ◌+◌, ◌-◌, ◌^◌, ◌%◌, Bool, true, false, not, ◌&&◌, ◌||◌, ltb, leb, ◌==◌, List, [],
  ◌∷◌, ◌++◌, length, take, drop, map, Option, none, some, is_some, if◌then◌else◌, Outcome, ok, err,
  panic,
}
use blipmq.Wire.Buf.{Bytes}
use blipmq.Core.LogError.{LogError, io, corruption, text}
use blipmq.Core.TagMap.{get, insert}
use blipmq.Wal.Record.{WalWriteRequest, RecordLocation, header_len, record_header_len, frame_batch}
use blipmq.Wal.Header.{write_header}
use blipmq.Wal.Compact.{Index}

pub record WalConfig : Type 0 where
  pub fsync_every_n : Option ℕ
  pub fsync_interval : Option ℕ
  pub channel_capacity : ℕ
  pub segment_bytes : ℕ

-- `answers` is what was sent to the callers of `append_durable`, by the id of the record.
pub record WalWriter : Type 0 where
  pub config : WalConfig
  pub files : List (ℕ × Bytes)
  pub stable : List (ℕ × Bytes)
  pub index : Index
  pub current_segment_seq : ℕ
  pub current_offset : ℕ
  pub unflushed_records : ℕ
  pub last_fsync : ℕ
  pub append_count : ℕ
  pub bytes_written : ℕ
  pub pending_durable_acks : List ℕ
  pub answers : List (ℕ × Outcome LogError (Unit {0}))

-- The answers to the calls of one batch: the fsync of a full segment, the creation of the next one,
-- its header, the records, and the fsync behind them. A write that fails may have written a part.
pub record FileSystem : Type 0 where
  pub full_synced : Bool
  pub created : Bool
  pub header_failed : Option ℕ
  pub records_failed : Option ℕ
  pub synced : Bool
  pub now : ℕ

abbrev pub Done : Type 0
Done = Outcome LogError (Unit {0})

-- `flush` and `sync_data`, and the answer to everyone who waits.
unfoldable pub answer_all : Done → List ℕ → List (ℕ × Done)
answer_all answer [] = []
answer_all answer (id ∷ ids) = (id, answer) ∷ answer_all answer ids

-- The bytes of a segment, if it is there.
unfoldable pub content : Option Bytes → Bytes
content none = []
content (some bytes) = bytes

unfoldable pub flush_file : Bool → ℕ → WalWriter → WalWriter × Done
unfolding content
flush_file synced now w =
    if synced
    then (
      record w {
        stable =
            insert w.current_segment_seq (content (get w.current_segment_seq w.files)) w.stable;
        pending_durable_acks = [];
        answers = w.answers ++ answer_all (ok tt) w.pending_durable_acks;
        unflushed_records = 0;
        last_fsync = now;
      },
      ok tt,
    )
    else (
      record w {
        pending_durable_acks = [];
        answers =
            w.answers
            ++ answer_all (err (corruption (text "wal fsync failed"))) w.pending_durable_acks;
      },
      err io,
    )

-- The rest of a step, unless it failed.
unfoldable pub and_then : (WalWriter → WalWriter × Done) → WalWriter × Done → WalWriter × Done
and_then rest (w, ok _) = rest w
and_then rest (w, err e) = (w, err e)
and_then rest (w, panic) = (w, panic)

-- `write_header` on the new file, which ends with a `sync_data` of its own.
put_header : ℕ → Option ℕ → WalWriter → WalWriter × Done
put_header next_seq none w = (
  record w {
    files = insert next_seq write_header w.files;
    stable = insert next_seq write_header w.stable;
    current_segment_seq = next_seq;
    current_offset = header_len;
  },
  ok tt,
)
put_header next_seq (some n) w =
    (record w { files = insert next_seq (take n write_header) w.files }, err io)

-- `create_new` refuses a segment that is there.
next_segment : FileSystem → WalWriter → WalWriter × Done
unfolding put_header
next_segment fs w =
    let next_seq = w.current_segment_seq + 1 in
    if not (ltb next_seq (2 ^ 64))
    then (w, err (corruption (text "segment sequence overflow")))
    else if not fs.created || is_some (get next_seq w.files)
    then (w, err io)
    else put_header next_seq fs.header_failed w

unfoldable pub roll_segment : FileSystem → WalWriter → WalWriter × Done
unfolding next_segment
roll_segment fs w = and_then (next_segment fs) (flush_file fs.full_synced fs.now w)

unfoldable pub batch_size : List WalWriteRequest → ℕ
batch_size [] = 0
batch_size (r ∷ rs) = (record_header_len + length r.payload) + batch_size rs

-- Whether the batch goes into the next segment: never if the current one is empty.
unfoldable pub is_full : WalWriter → ℕ → Bool
is_full w size =
    ltb header_len w.current_offset
    && ltb w.config.segment_bytes (min (w.current_offset + size) (2 ^ 64 - 1))

unfoldable pub new_acks : List WalWriteRequest → List ℕ
new_acks [] = []
new_acks (r ∷ rs) = if r.durable_ack then r.id ∷ new_acks rs else new_acks rs

-- A write at a position of the file.
unfoldable pub overwrite : ℕ → Bytes → Bytes → Bytes
overwrite offset bytes file = take offset file ++ (bytes ++ drop (offset + length bytes) file)

unfoldable pub insert_all : List (ℕ × RecordLocation) → Index → Index
insert_all [] index = index
insert_all ((id, loc) ∷ offsets) index = insert_all offsets (insert id loc index)

due : Option ℕ → ℕ → Bool
due none n = false
due (some limit) n = leb limit n

maybe_sync : FileSystem → WalWriter → WalWriter × Done
unfolding due
maybe_sync fs w =
    if due w.config.fsync_every_n w.unflushed_records
      || due w.config.fsync_interval (fs.now - w.last_fsync)
    then flush_file fs.synced fs.now w
    else (w, ok tt)

-- What the writer notes of the records that it wrote.
unfoldable pub note_records : List WalWriteRequest → WalWriter → WalWriter
note_records records w =
    let (offsets, buf, end_offset) = frame_batch w.current_segment_seq w.current_offset records in
    record w {
      current_offset = end_offset;
      index = insert_all offsets w.index;
      append_count = (w.append_count + length offsets) % 2 ^ 64;
      bytes_written = (w.bytes_written + length buf) % 2 ^ 64;
      unflushed_records = min (w.unflushed_records + length offsets) (2 ^ 64 - 1);
      pending_durable_acks = w.pending_durable_acks ++ new_acks records;
    }

-- An fsync at once if somebody waits, else by the configuration.
unfoldable pub settle : FileSystem → WalWriter → WalWriter × Done
unfolding maybe_sync
settle fs w =
    if length w.pending_durable_acks == 0 then maybe_sync fs w else flush_file fs.synced fs.now w

abbrev put_bytes : Bytes → WalWriter → WalWriter
put_bytes bytes w =
    let seq = w.current_segment_seq in
    record w {
      files = insert seq (overwrite w.current_offset bytes (content (get seq w.files))) w.files;
    }

-- `write_all` of the framed batch.
unfoldable pub write_records_as :
    Option ℕ → FileSystem → List WalWriteRequest → WalWriter → WalWriter × Done
unfolding settle note_records overwrite
write_records_as none fs records w = settle fs (
    note_records records
      (put_bytes (frame_batch w.current_segment_seq w.current_offset records).1 w))
write_records_as (some n) fs records w =
    (put_bytes (take n (frame_batch w.current_segment_seq w.current_offset records).1) w, err io)

unfoldable pub write_records : FileSystem → List WalWriteRequest → WalWriter → WalWriter × Done
unfolding write_records_as
write_records fs records w = write_records_as fs.records_failed fs records w

unfoldable pub write_batch : FileSystem → List WalWriteRequest → WalWriter → WalWriter × Done
unfolding write_records roll_segment
write_batch fs records w =
    if is_full w (batch_size records)
    then and_then (write_records fs records) (roll_segment fs w)
    else write_records fs records w
