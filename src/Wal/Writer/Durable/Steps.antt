-- ===== src/Wal/Writer/Durable/Steps.antt =====
-- The steps of a batch of the writer of wal/src/lib.rs, one after the other.
use blipmq.Prelude.{
  ℕ, ◌+◌, ◌^◌, ◌≡◌, refl, sym, ap, subst, ◌∙◌, arith, not, ◌||◌, ltb, ◌==◌, if-holds, inl, inr,
  List, [], ◌∷◌, ◌++◌, All, All-append, All-map, append-nil, append_assoc, length, Option, none,
  some, is_some, if◌then◌else◌, ◌-◌, ok, err, panic,
}
use blipmq.Wire.Buf.{Bytes}
use blipmq.Wire.Crc32.{Crc32}
use blipmq.Core.TagMap.{get, insert, get-insert}
use blipmq.Wal.Record.{WalWriteRequest, header_len, frame_batch}
use blipmq.Wal.Record.Layout.{Built}
use blipmq.Wal.Header.{write_header}
use blipmq.Wal.Writer.{
  WalWriter, FileSystem, Done, content, flush_file, and_then, put_header, next_segment,
  roll_segment, new_acks, maybe_sync, due, note_records, settle, overwrite, put_bytes,
  write_records_as, write_records, is_full, batch_size, write_batch,
}
use blipmq.Wal.Writer.Layout.{
  segment, HasId, HasId-right, frame_batch-append-end, overwrite-segment, length-zero,
}
use blipmq.Wal.Writer.Durable.{Kept, IsStable, IsWriter, Writing, Goes, flush_file-Goes}

-- The records of a batch that wait for an answer are among its records.
new_acks-HasId : (rs : List WalWriteRequest) → All (λ id. HasId id rs) (new_acks rs)
unfolding new_acks
new_acks-HasId [] = tt
new_acks-HasId (r ∷ rs) =
    let later : All (λ id. HasId id (r ∷ rs)) (new_acks rs) =
      All-map (λ id. HasId id rs) (λ id. HasId id (r ∷ rs)) (new_acks rs) (λ id h. inr h)
        (new_acks-HasId rs) in
    if-holds (All (λ id. HasId id (r ∷ rs))) r.durable_ack _ _ (λ _. (inl refl, later)) (λ _. later)

module _ ⦃h : Crc32⦄ where
  pub and_then-Goes :
      (rest : WalWriter → WalWriter × Done) (out : WalWriter × Done)
      → Goes out
      → ((w : WalWriter) → w.pending_durable_acks ≡ [] → Writing w → Goes (rest w))
      → Goes (and_then rest out)
  unfolding and_then
  and_then-Goes rest (w, ok _) g more = more w g.0 g.1
  and_then-Goes rest (w, err e) g more = g
  and_then-Goes rest (w, panic) g more = g

  -- A new segment: what was in the current one is now in an earlier one.
  moved-Kept :
      (seq : ℕ) (stable : List (ℕ × Bytes)) (bytes : Bytes) (done : List WalWriteRequest)
      (a : ℕ × Done)
      → get seq stable ≡ some (segment seq done)
      → All Built done
      → Kept seq stable done a
      → Kept (seq + 1) (insert (seq + 1) bytes stable) [] a
  moved-Kept seq stable bytes done (id, answer) disk whole k e = elim (k e) [
    | inl here ↦ inr (
      seq,
      omega arith,
      (done, ground (arith, disk, get-insert (seq + 1) seq bytes stable), whole, here),
    )
    | inr (s, before, (rs, there, b, has)) ↦
        inr
          (s, omega arith, (rs, ground (arith, there, get-insert (seq + 1) s bytes stable), b, has))
  ]

  put_header-Goes :
      (failed : Option ℕ) (w : WalWriter) (done : List WalWriteRequest)
      → w.pending_durable_acks ≡ []
      → IsStable w done
      → Goes (put_header (w.current_segment_seq + 1) failed w)
  unfolding put_header frame_batch
  put_header-Goes none w done p v =
      let next : ℕ = w.current_segment_seq + 1 in
      (
        p,
        (
          [],
          [],
          record {
            on_disk = record {
              disk =
                  ground
                    (arith, get-insert next next write_header w.stable, append-nil write_header);
              whole = tt;
              kept =
                  All-map (Kept w.current_segment_seq w.stable done)
                    (Kept next (insert next write_header w.stable) []) w.answers
                    (λ a.
                      moved-Kept w.current_segment_seq w.stable write_header done a v.disk v.whole)
                    v.kept;
            };
            file =
                ground (arith, get-insert next next write_header w.files, append-nil write_header);
            offset = refl;
            built = tt;
          },
        ),
      )
  put_header-Goes (some n) w done p v =
      (done, record { disk = v.disk; whole = v.whole; kept = v.kept })

  next_segment-Goes :
      (fs : FileSystem) (w : WalWriter) (done : List WalWriteRequest)
      → w.pending_durable_acks ≡ []
      → IsStable w done
      → Goes (next_segment fs w)
  unfolding next_segment
  next_segment-Goes fs w done p v =
      if-holds Goes (not (ltb (w.current_segment_seq + 1) (2 ^ 64))) _ _ (λ _. (done, v))
        λ _.
          if-holds Goes (not fs.created || is_some (get (w.current_segment_seq + 1) w.files)) _ _
            (λ _. (done, v)) (λ _. put_header-Goes fs.header_failed w done p v)

  pub none_waiting :
      (w : WalWriter) (done fresh : List WalWriteRequest)
      → w.pending_durable_acks ≡ []
      → All (λ id. HasId id (done ++ fresh)) w.pending_durable_acks
  none_waiting w done fresh p = subst (All (λ id. HasId id (done ++ fresh))) (sym p) tt

  roll_segment-Goes :
      (fs : FileSystem) (w : WalWriter) (done fresh : List WalWriteRequest)
      → w.pending_durable_acks ≡ []
      → IsWriter w done fresh
      → Goes (roll_segment fs w)
  unfolding roll_segment
  roll_segment-Goes fs w done fresh p v =
      and_then-Goes (next_segment fs) _
        (flush_file-Goes w done fresh v (none_waiting w done fresh p) fs.full_synced fs.now)
        (λ w' p' v'. next_segment-Goes fs w' v'.0 p' v'.2.on_disk)

  settle-Goes :
      (fs : FileSystem) (w : WalWriter) (done fresh : List WalWriteRequest)
      → IsWriter w done fresh
      → All (λ id. HasId id (done ++ fresh)) w.pending_durable_acks
      → Goes (settle fs w)
  unfolding settle maybe_sync
  settle-Goes fs w done fresh v waiting =
      let synced : Goes (flush_file fs.synced fs.now w) =
        flush_file-Goes w done fresh v waiting fs.synced fs.now in
      if-holds Goes (length w.pending_durable_acks == 0) _ _
        (λ empty.
          if-holds Goes
            (due w.config.fsync_every_n w.unflushed_records
              || due w.config.fsync_interval (fs.now - w.last_fsync))
            _ _ (λ _. synced) (λ _. (length-zero w.pending_durable_acks empty, (done, fresh, v))))
        (λ _. synced)

  module _ (fs : FileSystem) (records : List WalWriteRequest) (w : WalWriter)
      (done fresh : List WalWriteRequest) (p : w.pending_durable_acks ≡ [])
      (v : IsWriter w done fresh) (b : All Built records) where
    abbrev seq : ℕ
    seq = w.current_segment_seq

    abbrev grown : List WalWriteRequest
    grown = fresh ++ records

    regroup : (done ++ fresh) ++ records ≡ done ++ grown
    regroup = append_assoc done fresh records

    written-segment :
        get seq (put_bytes (frame_batch seq w.current_offset records).1 w).files
        ≡ some (segment seq (done ++ grown))
    unfolding content
    written-segment =
        get-insert seq seq _ w.files
        ∙ if_same
        ∙ ap some (
            ap (λ (o : Option Bytes). overwrite w.current_offset buf (content o)) v.file
            ∙ ap
                (λ (o : ℕ). overwrite o (frame_batch seq o records).1 (segment seq (done ++ fresh)))
                v.offset
            ∙ overwrite-segment seq (done ++ fresh) records
                (All-append Built done fresh v.on_disk.whole v.built)
            ∙ ap (segment seq) regroup)
      where
        buf : Bytes
        buf = (frame_batch seq w.current_offset records).1

        if_same :
            (if seq == seq
              then some (overwrite w.current_offset buf (content (get seq w.files)))
              else get seq w.files)
            ≡ some (overwrite w.current_offset buf (content (get seq w.files)))
        if_same = ground arith

    written-offset :
        (frame_batch seq w.current_offset records).2
        ≡ (frame_batch seq header_len (done ++ grown)).2
    written-offset =
        ap (λ (o : ℕ). (frame_batch seq o records).2) v.offset
        ∙ sym (frame_batch-append-end seq header_len (done ++ fresh) records)
        ∙ ap (λ (rs : List WalWriteRequest). (frame_batch seq header_len rs).2) regroup

    waiting : All (λ id. HasId id (done ++ grown)) (w.pending_durable_acks ++ new_acks records)
    waiting =
        All-append (λ id. HasId id (done ++ grown)) w.pending_durable_acks (new_acks records)
          (none_waiting w done grown p)
          (All-map (λ id. HasId id records) (λ id. HasId id (done ++ grown)) (new_acks records)
            (λ id has. HasId-right id done grown (HasId-right id fresh records has))
            (new_acks-HasId records))

    noted-IsWriter :
        IsWriter
          (note_records records (put_bytes (frame_batch seq w.current_offset records).1 w))
          done
          grown
    unfolding note_records
    noted-IsWriter = record {
      on_disk = record { disk = v.on_disk.disk; whole = v.on_disk.whole; kept = v.on_disk.kept };
      file = written-segment;
      offset = written-offset;
      built = All-append Built fresh records v.built b;
    }

    write_records_as-Goes : (failed : Option ℕ) → Goes (write_records_as failed fs records w)
    unfolding write_records_as
    write_records_as-Goes none =
        settle-Goes fs
          (note_records records (put_bytes (frame_batch seq w.current_offset records).1 w)) done
          grown noted-IsWriter (unfold note_records in waiting)
    write_records_as-Goes (some n) =
        (done, record { disk = v.on_disk.disk; whole = v.on_disk.whole; kept = v.on_disk.kept })

  write_records-Goes :
      (fs : FileSystem) (records : List WalWriteRequest) (w : WalWriter)
      → All Built records
      → w.pending_durable_acks ≡ []
      → Writing w
      → Goes (write_records fs records w)
  unfolding write_records
  write_records-Goes fs records w b p (done, fresh, v) =
      write_records_as-Goes fs records w done fresh p v b fs.records_failed

  -- A batch: the writer goes on, or it stops; either way what it answered is on the disk.
  pub write_batch-Goes :
      (fs : FileSystem) (records : List WalWriteRequest) (w : WalWriter)
      → All Built records
      → w.pending_durable_acks ≡ []
      → Writing w
      → Goes (write_batch fs records w)
  unfolding write_batch
  write_batch-Goes fs records w b p (done, fresh, v) =
      if-holds Goes (is_full w (batch_size records)) _ _
        (λ _.
          and_then-Goes (write_records fs records) _ (roll_segment-Goes fs w done fresh p v)
            (λ w' p' v'. write_records-Goes fs records w' b p' v'))
        (λ _. write_records-Goes fs records w b p (done, fresh, v))
