-- ===== src/Wal/Open.antt =====
-- wal/src/lib.rs: `open_with_config` of `WriteAheadLog`, over the segments of the directory in the order
-- of their numbers, each with its bytes. `path_is_file` and `dir_fails` are what the file system says of
-- the directory.
pub mod Indexing
pub mod Segments
use blipmq.Prelude.{
  ℕ, ◌+◌, ◌*◌, ◌%◌, ◌^◌, Bool, ltb, leb, ◌==◌, List, [], ◌∷◌, Option, none, some, if◌then◌else◌,
  Outcome, ok, err, panic, ◌>>=◌, ◌>>◌, reject_if,
}
use blipmq.Wire.Buf.{Bytes}
use blipmq.Wire.Crc32.{Crc32}
use blipmq.Core.LogError.{LogError, invalid_config, text}
use blipmq.Core.TagMap.{insert}
use blipmq.Wal.Record.{RecordLocation, header_len, record_header_len, rebuild_segment_index}
use blipmq.Wal.Header.{write_header, validate_header}
use blipmq.Wal.Compact.{Index}
use blipmq.Wal.Writer.{WalConfig, WalWriter}

-- `WalConfig::default()`
pub default_config : WalConfig
default_config = record {
  fsync_every_n = some 64;
  fsync_interval = none;
  channel_capacity = 1024;
  segment_bytes = 256 * 1024 * 1024;
}

-- The records of one segment go into the index, and the next id behind them.
pub index_records : ℕ → List (ℕ × ℕ) → Index → ℕ → Index × ℕ
index_records seq [] index next_id = (index, next_id)
index_records seq ((id, offset) ∷ records) index next_id =
    index_records seq records
      (insert id (record { segment_seq = seq; offset_in_segment = offset }) index)
      (if leb next_id id then (id + 1) % 2 ^ 64 else next_id)

-- The loop over the segments, with the number and the end of the last one.
read_segments :
    ⦃h : Crc32⦄ → List (ℕ × Bytes) → Index → ℕ → ℕ × ℕ → Outcome LogError (Index × ℕ × (ℕ × ℕ))
unfolding index_records
read_segments [] index next_id tail = ok (index, next_id, tail)
read_segments ((seq, file) ∷ files) index next_id tail = do
  validate_header file
  (records, _, end_offset) ← rebuild_segment_index file
  let (index, next_id) = index_records seq records index next_id
  read_segments files index next_id (seq, end_offset)

writer_at : WalConfig → ℕ → List (ℕ × Bytes) → Index → ℕ × ℕ → WalWriter
writer_at config now files index (seq, offset) = record {
  config = config;
  files = files;
  stable = files;
  index = index;
  current_segment_seq = seq;
  current_offset = offset;
  unflushed_records = 0;
  last_fsync = now;
  append_count = 0;
  bytes_written = 0;
  pending_durable_acks = [];
  answers = [];
}

-- The segments of the directory. An empty one is given its first.
open_segments : ⦃h : Crc32⦄ → WalConfig → ℕ → List (ℕ × Bytes) → Outcome LogError (WalWriter × ℕ)
unfolding read_segments writer_at
open_segments config now [] =
    ok (writer_at config now ((1, write_header) ∷ []) [] (1, header_len), 1)
open_segments config now ((seq, file) ∷ files) = do
  (index, next_id, tail) ← read_segments ((seq, file) ∷ files) [] 1 (seq, header_len)
  ok (writer_at config now ((seq, file) ∷ files) index tail, next_id)

dir_ready : Option LogError → Outcome LogError (Unit {0})
dir_ready none = ok tt
dir_ready (some e) = err e

-- The writer, and the id of the next record.
pub open_with_config :
    ⦃h : Crc32⦄
    → WalConfig
    → Bool
    → Option LogError
    → ℕ
    → List (ℕ × Bytes)
    → Outcome LogError (WalWriter × ℕ)
unfolding dir_ready open_segments
open_with_config config path_is_file dir_fails now files = do
  reject_if (config.channel_capacity == 0)
      (invalid_config (text "channel_capacity must be greater than 0"))
  reject_if (ltb config.segment_bytes (header_len + record_header_len))
      (invalid_config (text "segment_bytes too small to hold one record"))
  reject_if path_is_file (invalid_config (text "is a file; segmented WAL expects a directory"))
  dir_ready dir_fails
  open_segments config now files
