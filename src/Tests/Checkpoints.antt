-- ===== src/Tests/Checkpoints.antt =====
-- Runs and instances for the checkpoint of core/src/lib.rs.
use blipmq.Prelude.{ℕ, ◌+◌, ◌%◌, ◌^◌, ◌≡◌, refl, arith, [], ◌∷◌, ok, false}
use blipmq.Wire.Buf.{Bytes}
use blipmq.Wire.BigEndian.{big_endian}
use blipmq.Wire.Crc32.{Crc32}
use blipmq.Wire.Utf8.{is_utf8}
use blipmq.Core.Subject.{bytes_eq}
use blipmq.Core.Checkpoint
use blipmq.Core.Checkpoint.{Cursor, CheckpointSnapshot, same_key}
use blipmq.Core.Checkpoint.RoundTrip.{Fits, CursorFits, checkpoint_decode-encode}

abbrev pub sum : Bytes → ℕ
sum [] = 0
sum (x ∷ xs) = x + sum xs

-- A checksum to run the codec with.
instance pub sum_checksum : Crc32
sum_checksum = record { checksum = λ bytes. sum bytes % 2 ^ 32; checksum_lt = λ bytes. omega arith }

abbrev client : Bytes
client = b'c' ∷ b'1' ∷ []

abbrev first : Cursor
first = record { client_id = client; topic = b't' ∷ []; wal_id = 41 }

abbrev second : Cursor
second = record { client_id = client; topic = b'u' ∷ []; wal_id = 40 }

abbrev a_snapshot : CheckpointSnapshot
a_snapshot = record { snapshot_id = 40; cursors = first ∷ second ∷ [] }

first-CursorFits : CursorFits first
unfolding is_utf8
first-CursorFits = (omega arith, refl, omega arith, refl, omega arith)

second-CursorFits : CursorFits second
unfolding is_utf8
second-CursorFits = (omega arith, refl, omega arith, refl, omega arith)

other_key : same_key second first ≡ false
unfolding same_key bytes_eq
other_key = refl

a_snapshot-Fits : Fits a_snapshot
a_snapshot-Fits = (
  omega arith,
  omega arith,
  (first-CursorFits, (second-CursorFits, tt)),
  ((other_key, tt), (tt, tt)),
)

checkpoint_decode-encode_example :
    (bytes : Bytes) × (Checkpoint.encode a_snapshot ≡ ok bytes)
    × (Checkpoint.decode bytes ≡ ok a_snapshot)
checkpoint_decode-encode_example = checkpoint_decode-encode a_snapshot a_snapshot-Fits

abbrev written : Bytes
written = (checkpoint_decode-encode a_snapshot a_snapshot-Fits).0

written-decode : Checkpoint.decode written ≡ ok a_snapshot
written-decode = (checkpoint_decode-encode a_snapshot a_snapshot-Fits).2
