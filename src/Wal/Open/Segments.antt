-- ===== src/Wal/Open/Segments.antt =====
-- The log of wal/src/lib.rs opened on segments that a writer left: its index, the next id and its writer.
use blipmq.Prelude.{
  ℕ, ◌^◌, ◌≤◌, ◌<◌, ◌≡◌, ◌≢◌, ◌⊎◌, refl, sym, ap, ◌∙◌, arith, Bool, false, ltb, ◌==◌, inl, inr,
  List, [], ◌∷◌, All, map, append-nil, Option, none, some, ok,
}
use blipmq.Wire.Buf.{Bytes}
use blipmq.Wire.Crc32.{Crc32}
use blipmq.Core.LogError.{LogError}
use blipmq.Core.TagMap.{get}
use blipmq.Wal.Record.{WalWriteRequest, header_len, frame_batch}
use blipmq.Wal.Record.Layout.{Built}
use blipmq.Wal.Record.Scan.{found_at, rebuild_segment_index-whole}
use blipmq.Wal.Header.{write_header, validate_header-write_header}
use blipmq.Wal.Compact.{Index}
use blipmq.Wal.Writer.{WalConfig, WalWriter}
use blipmq.Wal.Writer.Layout.{segment, HasId}
use blipmq.Wal.Writer.Durable.{Writing}
use blipmq.Wal.Open.{
  index_records, read_segments, writer_at, open_segments, dir_ready, open_with_config,
}
use blipmq.Wal.Open.Indexing.{Known, Low, frame_batch-Ids, index_records-Known, index_records-finds}

module _ ⦃h : Crc32⦄ where
  abbrev pub Segment : Type 0
  Segment = ℕ × List WalWriteRequest

  abbrev pub file_of : Segment → ℕ × Bytes
  file_of (seq, rs) = (seq, segment seq rs)

  abbrev pub end_of : Segment → ℕ
  end_of (seq, rs) = (frame_batch seq header_len rs).2

  -- Records that `build_request` made, whose ids do not wrap, in less than 2 ^ 64 bytes.
  abbrev pub Whole : Segment → Type 0
  Whole s = All Built s.1 × All Low s.1 × (end_of s < 2 ^ 64)

  abbrev pub InSegments : ℕ → List Segment → Type 0
  InSegments id [] = ⊥
  InSegments id (s ∷ segments) = HasId id s.1 ⊎ InSegments id segments

  abbrev pub last_of : Segment → List Segment → Segment
  last_of s [] = s
  last_of s (t ∷ segments) = last_of t segments

  abbrev pub tail_of : ℕ × ℕ → List Segment → ℕ × ℕ
  tail_of tail [] = tail
  tail_of tail (s ∷ segments) = tail_of (s.0, end_of s) segments

  abbrev Indexed : Index → ℕ → ℕ × ℕ → List Segment → Type 0
  Indexed index next_id tail segments =
      (index' : Index) × (next_id' : ℕ) × (read_segments (map file_of segments) index next_id tail
        ≡ ok (index', next_id', tail_of tail segments))
      × ((id : ℕ) → Known index next_id id ⊎ InSegments id segments → Known index' next_id' id)

  read_segments-Indexed :
      (segments : List Segment) (index : Index) (next_id : ℕ) (tail : ℕ × ℕ)
      → All Whole segments
      → Indexed index next_id tail segments
  unfolding read_segments
  read_segments-Indexed [] index next_id tail w = (
    index,
    next_id,
    refl,
    λ id known. elim known [ inl k ↦ k | inr none_there ↦ absurd none_there ],
  )
  read_segments-Indexed ((seq, rs) ∷ segments) index next_id tail w =
      let found : List (ℕ × ℕ) = map found_at (frame_batch seq header_len rs).0 in
      let (index1, next_id1) = index_records seq found index next_id in
      let (index', next_id', e, known) =
        read_segments-Indexed segments index1 next_id1 (seq, end_of (seq, rs)) w.1 in
      let (valid, len) = validate_header-write_header (frame_batch seq header_len rs).1 in
      (
        index',
        next_id',
        rw (valid, rebuild_segment_index-whole write_header seq rs len w.0.0 w.0.2) e,
        λ id k. known id (elim k [
          | inl before ↦ inl (
              index_records-Known seq found index next_id id
                (frame_batch-Ids seq header_len rs w.0.1) before)
          | inr (inl here) ↦ inl (index_records-finds seq header_len rs index next_id id w.0.1 here)
          | inr (inr later) ↦ inr later
        ]),
      )

  -- The numbers of the segments ascend.
  abbrev Above : ℕ → List Segment → Type 0
  Above seq [] = Unit
  Above seq (s ∷ segments) = (seq < s.0) × Above seq segments

  abbrev pub Ascending : List Segment → Type 0
  Ascending [] = Unit
  Ascending (s ∷ segments) = Above s.0 segments × Ascending segments

  last_of-Above :
      (seq : ℕ) (s : Segment) (segments : List Segment)
      → seq < s.0
      → Above seq segments
      → seq < (last_of s segments).0
  last_of-Above seq s [] h a = h
  last_of-Above seq s (t ∷ segments) h a = last_of-Above seq t segments a.0 a.1

  get-last_of :
      (s : Segment) (segments : List Segment)
      → Ascending (s ∷ segments)
      → get (last_of s segments).0 (map file_of (s ∷ segments))
        ≡ some (segment (last_of s segments).0 (last_of s segments).1)
  unfolding get
  get-last_of s [] a = ground arith
  get-last_of s (t ∷ segments) a =
      ground (arith, last_of-Above s.0 t segments a.0.0 a.0.1, get-last_of t segments a.1)

  tail_of-last :
      (s : Segment) (segments : List Segment)
      → tail_of (s.0, end_of s) segments ≡ ((last_of s segments).0, end_of (last_of s segments))
  tail_of-last s [] = refl
  tail_of-last s (t ∷ segments) = tail_of-last t segments

  last_of-Whole :
      (s : Segment) (segments : List Segment)
      → All Whole (s ∷ segments)
      → Whole (last_of s segments)
  last_of-Whole s [] w = w.0
  last_of-Whole s (t ∷ segments) w = last_of-Whole t segments w.1

  -- The log is open: every record has its place, the next id is new, and the writer goes on behind the
  -- last record, with nobody waiting.
  abbrev pub Opened : WalConfig → Bool → Option LogError → ℕ → List Segment → Type 0
  Opened config path_is_file dir_fails now segments =
      (w : WalWriter) × (next_id : ℕ) × (open_with_config config path_is_file dir_fails now
          (map file_of segments)
        ≡ ok (w, next_id))
      × ((id : ℕ) → InSegments id segments → (get id w.index ≢ none) × (id < next_id))
      × Writing w
      × (w.pending_durable_acks ≡ [])

  writer_at-Writing :
      (config : WalConfig) (now : ℕ) (index : Index) (s : Segment) (segments : List Segment)
      → Ascending (s ∷ segments)
      → All Whole (s ∷ segments)
      → Writing (
          writer_at config now
            (map file_of (s ∷ segments))
            index
            ((last_of s segments).0, end_of (last_of s segments)))
  unfolding writer_at
  writer_at-Writing config now index s segments a w =
      let last : Segment = last_of s segments in
      let (built, low, small) = last_of-Whole s segments w in
      (
        last.1,
        [],
        record {
          on_disk = record { disk = get-last_of s segments a; whole = built; kept = tt };
          file =
              get-last_of s segments a
              ∙ ap (λ (rs : List WalWriteRequest). some (segment last.0 rs))
                  (sym (append-nil last.1));
          offset =
              ap (λ (rs : List WalWriteRequest). (frame_batch last.0 header_len rs).2)
                (sym (append-nil last.1));
          built = tt;
        },
      )

  first_Writing :
      (config : WalConfig) (now : ℕ)
      → Writing (writer_at config now ((1, write_header) ∷ []) [] (1, header_len))
  unfolding writer_at get frame_batch
  first_Writing config now = (
    [],
    [],
    record {
      on_disk = record { disk = ap some (sym (append-nil write_header)); whole = tt; kept = tt };
      file = ap some (sym (append-nil write_header));
      offset = refl;
      built = tt;
    },
  )

  opened :
      (config : WalConfig) (now : ℕ) (s : Segment) (segments : List Segment) (index : Index)
      (next_id : ℕ) {tail : ℕ × ℕ}
      → 0 < config.channel_capacity
      → 48 ≤ config.segment_bytes
      → read_segments (map file_of (s ∷ segments)) [] 1 (s.0, header_len)
        ≡ ok (index, next_id, tail)
      → open_with_config config false none now (map file_of (s ∷ segments))
        ≡ ok (writer_at config now (map file_of (s ∷ segments)) index tail, next_id)
  unfolding open_with_config open_segments dir_ready
  opened config now s segments index next_id room size e =
      let g : (config.channel_capacity == 0) ≡ false = ground arith in
      let k : ltb config.segment_bytes 48 ≡ false = ground arith in rw (g, k, e) refl

  -- A log is opened on the segments that a writer left, in the order of their numbers, each with its
  -- header and whole records whose ids do not wrap and with less than 2 ^ 64 bytes: the configuration is
  -- valid and the directory can be read. Every record is in the index, its id lies below the next one,
  -- the writer goes on behind the last record, and nobody waits. An empty directory is given its first
  -- segment.
  pub open_with_config-Opened :
      (config : WalConfig) (now : ℕ) (segments : List Segment)
      → 0 < config.channel_capacity
      → 48 ≤ config.segment_bytes
      → Ascending segments
      → All Whole segments
      → Opened config false none now segments
  unfolding open_with_config open_segments dir_ready
  open_with_config-Opened config now [] room size a w = (
    writer_at config now ((1, write_header) ∷ []) [] (1, header_len),
    1,
    ground arith,
    λ id none_there. absurd none_there,
    first_Writing config now,
    unfold writer_at in refl,
  )
  open_with_config-Opened config now (s ∷ segments) room size a w =
      let (index, next_id, e, known) =
        read_segments-Indexed (s ∷ segments) [] 1 (s.0, header_len) w in
      let last : Segment = last_of s segments in
      (
        writer_at config now (map file_of (s ∷ segments)) index (last.0, end_of last),
        next_id,
        opened config now s segments index next_id room size
            (e ∙ ap (λ (tail : ℕ × ℕ). ok (index, next_id, tail)) (tail_of-last s segments)),
        λ id there. unfold writer_at in known id (inr there),
        writer_at-Writing config now index s segments a w,
        unfold writer_at in refl,
      )
