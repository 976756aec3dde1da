-- ===== src/Tests/Segments.antt =====
-- Instances for the log of wal/src/lib.rs.
use blipmq.Prelude.{
  ℕ, ◌^◌, ◌<◌, ◌≡◌, refl, arith, List, [], ◌∷◌, ◌++◌, map, length, take, false, ok,
}
use blipmq.Wire.Buf.{Bytes}
use blipmq.Wire.Endian.{le_bytes}
use blipmq.Tests.Checkpoints.{sum_checksum}
use blipmq.Wal.Record.{
  WalWriteRequest, header_len, build_request, frame_batch, rebuild_segment_index,
}
use blipmq.Wal.Record.Layout.{Built, request_bytes}
use blipmq.Wal.Record.Scan.{found_at, next_after, rebuild_segment_index-frame_batch}

abbrev pub request : ℕ → Bytes → WalWriteRequest
request id payload =
    let framing = le_bytes 8 id ++ le_bytes 4 (length payload) in
    record {
      id = id;
      header = framing ++ le_bytes 4 (sum_checksum.checksum (framing ++ payload));
      payload = payload;
      durable_ack = false;
    }

abbrev two_requests : List WalWriteRequest
two_requests = request 1 (7 ∷ []) ∷ request 2 (8 ∷ 9 ∷ []) ∷ []

first-Built : Built (request 1 (7 ∷ []))
unfolding build_request
first-Built = (omega arith, refl)

pub second-Built : Built (request 2 (8 ∷ 9 ∷ []))
unfolding build_request
second-Built = (omega arith, refl)

abbrev file_header : Bytes
file_header = le_bytes 32 0

two_end : (frame_batch 0 header_len two_requests).2 < 2 ^ 64
unfolding frame_batch
two_end = omega arith

rebuild_segment_index-frame_batch_example :
    rebuild_segment_index (
      file_header
      ++ ((frame_batch 0 header_len two_requests).1
          ++ take 17 (request_bytes (request 2 (8 ∷ 9 ∷ [])))))
    ≡ ok (
      map found_at (frame_batch 0 header_len two_requests).0,
      next_after 1 two_requests,
      (frame_batch 0 header_len two_requests).2,
    )
rebuild_segment_index-frame_batch_example =
    rebuild_segment_index-frame_batch file_header 0 two_requests (request 2 (8 ∷ 9 ∷ [])) 17
      header_32 (first-Built, (second-Built, tt)) second-Built torn two_end
  where
    header_32 : length file_header ≡ header_len
    header_32 = unfold le_bytes in refl

    torn : 17 < length (request_bytes (request 2 (8 ∷ 9 ∷ [])))
    torn = unfold le_bytes in omega arith
