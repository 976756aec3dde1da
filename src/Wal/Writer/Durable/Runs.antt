-- ===== src/Wal/Writer/Durable/Runs.antt =====
-- A run of the writer of wal/src/lib.rs, a crash, and the log as it is opened again.
use blipmq.Prelude.{
  ℕ, ◌<◌, ◌^◌, ◌+◌, ◌≡◌, ◌⊎◌, refl, sym, ap, ◌∙◌, arith, Bool, true, false, inl, inr, List, [], ◌∷◌,
  ◌++◌, All, All-append, append-nil, length, length-append, map, some, ok, err, panic,
}
use blipmq.Wire.Buf.{Bytes}
use blipmq.Wire.Crc32.{Crc32}
use blipmq.Core.TagMap.{get}
use blipmq.Wal.Record.{WalWriteRequest, header_len, frame_batch, rebuild_segment_index}
use blipmq.Wal.Record.Layout.{Built, length-header_bytes, Built-header}
use blipmq.Wal.Record.Scan.{found_at, next_after, rebuild_segment_index-frame_batch}
use blipmq.Wal.Header.{write_header, length-write_header}
use blipmq.Wal.Writer.{WalWriter, FileSystem, Done, flush_file}
use blipmq.Wal.Writer.Run.{
  WalMessage, write, flush, Turn, collect_batch, flush_if, turn, go_on, run,
}
use blipmq.Wal.Writer.Layout.{segment, HasId, frame_batch-length}
use blipmq.Wal.Writer.Durable.{
  Kept, IsStable, Writing, Stopped, Goes, flushed-IsWriter, unflushed-IsWriter,
}
use blipmq.Wal.Writer.Durable.Steps.{none_waiting, and_then-Goes, write_batch-Goes}

-- An id that is among those found.
abbrev pub Found : ℕ → List (ℕ × ℕ) → Type 0
Found id [] = ⊥
Found id ((found, offset) ∷ rest) = (found ≡ id) ⊎ Found id rest

Found-frame_batch :
    (id seq offset : ℕ) (rs : List WalWriteRequest)
    → HasId id rs
    → Found id (map found_at (frame_batch seq offset rs).0)
unfolding frame_batch
Found-frame_batch id seq offset [] h = elim h [ ]
Found-frame_batch id seq offset (r ∷ rs) (inl e) = inl e
Found-frame_batch id seq offset (r ∷ rs) (inr h) =
    inr (Found-frame_batch id seq (offset + (16 + length r.payload)) rs h)

module _ ⦃h : Crc32⦄ where
  abbrev pub BuiltMessage : WalMessage → Type 0
  BuiltMessage (write r) = Built r
  BuiltMessage flush = Unit

  collect_batch-Built :
      (queue : List WalMessage)
      → All BuiltMessage queue
      → All Built (collect_batch queue).0 × All BuiltMessage (collect_batch queue).2
  unfolding collect_batch
  collect_batch-Built [] b = (tt, tt)
  collect_batch-Built (flush ∷ queue) b = (tt, b.1)
  collect_batch-Built (write r ∷ queue) b =
      let (records, rest) = collect_batch-Built queue b.1 in ((b.0, records), rest)

  flush_if-Goes :
      (pending_flush : Bool) (fs : FileSystem) (w : WalWriter)
      → w.pending_durable_acks ≡ []
      → Writing w
      → Goes (flush_if pending_flush fs w)
  unfolding flush_if
  flush_if-Goes true fs w p (done, fresh, v) = flushed fs.synced
    where
      flushed : (synced : Bool) → Goes ((flush_file synced fs.now w).0, ok tt)
      flushed true = (
        unfold flush_file in refl,
        (done ++ fresh, [], flushed-IsWriter w done fresh v (none_waiting w done fresh p) fs.now),
      )
      flushed false = (
        unfold flush_file in refl,
        (done, fresh, unflushed-IsWriter w done fresh v (none_waiting w done fresh p) fs.now),
      )
  flush_if-Goes false fs w p v = (p, v)

  abbrev TurnGoes : List WalMessage × (WalWriter × Done) → Type 0
  TurnGoes out = All BuiltMessage out.0 × Goes out.1

  turn-Goes :
      (t : Turn) (queue : List WalMessage) (w : WalWriter)
      → All BuiltMessage queue
      → w.pending_durable_acks ≡ []
      → Writing w
      → TurnGoes (turn t queue w)
  unfolding turn
  turn-Goes t [] w b p v = (tt, (p, v))
  turn-Goes t (flush ∷ queue) w b p v = (b.1, flush_if-Goes true t.flushed w p v)
  turn-Goes t (write r ∷ queue) w b p v =
      let (records, rest) = collect_batch-Built queue b.1 in
      (
        rest,
        and_then-Goes (flush_if (collect_batch queue).1 t.flushed) _
            (write_batch-Goes t.batch (r ∷ (collect_batch queue).0) w (b.0, records) p v)
            (flush_if-Goes (collect_batch queue).1 t.flushed),
      )

  abbrev pub BuiltTurn : Turn → Type 0
  BuiltTurn t = All BuiltMessage t.arrived

  -- The writer is stopped, or it waits for the next message.
  stopped : (out : WalWriter × Done) → Goes out → Stopped out.0
  stopped (w, ok _) g = let (done, fresh, v) = g.1 in (done, v.on_disk)
  stopped (w, err e) g = g
  stopped (w, panic) g = absurd g

  go_on-Goes :
      (rest : List WalMessage → WalWriter → WalWriter × Done)
      (out : List WalMessage × (WalWriter × Done))
      → TurnGoes out
      → ((queue : List WalMessage) (w : WalWriter)
          → All BuiltMessage queue
          → w.pending_durable_acks ≡ []
          → Writing w
          → Goes (rest queue w))
      → Goes (go_on rest out)
  unfolding go_on
  go_on-Goes rest (queue, (w, ok _)) g more = more queue w g.0 g.1.0 g.1.1
  go_on-Goes rest (queue, (w, err e)) g more = g.1
  go_on-Goes rest (queue, (w, panic)) g more = g.1

  run-Goes :
      (ts : List Turn) (queue : List WalMessage) (w : WalWriter)
      → All BuiltTurn ts
      → All BuiltMessage queue
      → w.pending_durable_acks ≡ []
      → Writing w
      → Goes (run ts queue w)
  unfolding run
  run-Goes [] queue w bt b p v = (p, v)
  run-Goes (t ∷ ts) queue w bt b p v =
      go_on-Goes (run ts) _
        (turn-Goes t (queue ++ t.arrived) w (All-append BuiltMessage queue t.arrived b bt.0) p v)
        (λ queue' w' b' p' v'. run-Goes ts queue' w' bt.1 b' p' v')

  -- A segment opens without an error, and the id is found in it.
  abbrev pub Opens : ℕ → Bytes → Type 0
  Opens id bytes =
      (found : List (ℕ × ℕ)) × (next_id : ℕ) × (end_offset : ℕ) × (rebuild_segment_index bytes
        ≡ ok (found, next_id, end_offset))
      × Found id found

  segment-Found :
      (id seq : ℕ) (rs : List WalWriteRequest)
      → All Built rs
      → HasId id rs
      → length (segment seq rs) < 2 ^ 64
      → Opens id (segment seq rs)
  segment-Found id seq [] b has small = elim has [ ]
  segment-Found id seq (r ∷ rs) b has small =
      let all : List WalWriteRequest = r ∷ rs in
      let buf : Bytes = (frame_batch seq header_len all).1 in
      let (hlen, e) = Built-header r b.0 in
      let n' : length r.header ≡ 16 = ap length e ∙ length-header_bytes r in
      let fits : (frame_batch seq header_len all).2 < 2 ^ 64 = omega (
        arith,
        frame_batch-length seq header_len all b,
        length-append write_header buf,
        length-write_header,
      ) in
      (
        map found_at (frame_batch seq header_len all).0,
        next_after 1 all,
        (frame_batch seq header_len all).2,
        ap (λ (t : Bytes). rebuild_segment_index (write_header ++ t)) (sym (append-nil buf))
            ∙ rebuild_segment_index-frame_batch write_header seq all r 0 length-write_header b b.0
                (omega (arith, n', length-append r.header r.payload)) fits,
        Found-frame_batch id seq header_len all has,
      )

  -- An answer of `append_durable`: the disk has a segment that opens, and in which the id is found.
  abbrev pub Recovered : List (ℕ × Bytes) → ℕ × Done → Type 0
  Recovered stable (id, answer) =
      answer ≡ ok tt → (seq : ℕ) × (bytes : Bytes) × (get seq stable ≡ some bytes) × Opens id bytes

  -- The segments on the disk have less than 2 ^ 64 bytes.
  abbrev pub Small : List (ℕ × Bytes) → Type 0
  Small stable = (seq : ℕ) (bytes : Bytes) → get seq stable ≡ some bytes → length bytes < 2 ^ 64

  Kept-Recovered :
      (w : WalWriter) (done : List WalWriteRequest) (a : ℕ × Done)
      → IsStable w done
      → Small w.stable
      → Kept w.current_segment_seq w.stable done a
      → Recovered w.stable a
  Kept-Recovered w done (id, answer) v small k e = elim (k e) [
    | inl here ↦
        let seq : ℕ = w.current_segment_seq in
        (
          seq,
          segment seq done,
          v.disk,
          segment-Found id seq done v.whole here (small seq (segment seq done) v.disk),
        )
    | inr (s, before, (rs, there, b, has)) ↦
        (s, segment s rs, there, segment-Found id s rs b has (small s (segment s rs) there))
  ]

  all_Recovered :
      (w : WalWriter) (done : List WalWriteRequest) (answers : List (ℕ × Done))
      → IsStable w done
      → Small w.stable
      → All (Kept w.current_segment_seq w.stable done) answers
      → All (Recovered w.stable) answers
  all_Recovered w done [] v small k = tt
  all_Recovered w done (a ∷ rest) v small k =
      (Kept-Recovered w done a v small k.0, all_Recovered w done rest v small k.1)

  -- The writer runs on any messages with records that `build_request` made, whatever the file system
  -- answers and wherever an error stops it: for every record that `append_durable` was answered for
  -- without an error, the disk holds a segment whose records are read without an error, and the record's
  -- id is among those found. The writer starts on a log that is open, with nobody waiting, and the
  -- segments on the disk have less than 2 ^ 64 bytes.
  pub run-Recovered :
      (ts : List Turn) (w : WalWriter)
      → All BuiltTurn ts
      → w.pending_durable_acks ≡ []
      → Writing w
      → Small (run ts [] w).0.stable
      → All (Recovered (run ts [] w).0.stable) (run ts [] w).0.answers
  run-Recovered ts w bt p v small =
      let (done, s) = stopped (run ts [] w) (run-Goes ts [] w bt tt p v) in
      all_Recovered (run ts [] w).0 done (run ts [] w).0.answers s small s.kept
