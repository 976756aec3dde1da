-- ===== src/Wal/Writer/Durable.antt =====
-- What the writer of wal/src/lib.rs owes to the callers of `append_durable`: their records, and where
-- they stand on the disk.
pub mod Steps
pub mod Runs
use blipmq.Prelude.{
  ℕ, Bool, true, false, ◌<◌, ◌≡◌, ◌⊎◌, refl, sym, ap, ◌∙◌, arith, inl, inr, List, [], ◌∷◌, ◌++◌,
  All, All-append, All-map, append-nil, Option, none, some, Outcome, ok, err, panic,
}
use blipmq.Wire.Buf.{Bytes}
use blipmq.Wire.Crc32.{Crc32}
use blipmq.Core.LogError.{LogError}
use blipmq.Core.TagMap.{get, insert, get-insert}
use blipmq.Wal.Record.{WalWriteRequest, header_len, frame_batch}
use blipmq.Wal.Record.Layout.{Built}
use blipmq.Wal.Writer.{WalWriter, Done, answer_all, content, flush_file}
use blipmq.Wal.Writer.Layout.{segment, HasId, HasId-left}

module _ ⦃h : Crc32⦄ where
  -- A segment on the disk is well formed, and holds a record with the id.
  abbrev pub InSegment : ℕ → List (ℕ × Bytes) → ℕ → Type 0
  InSegment id stable seq =
      (rs : List WalWriteRequest) × (get seq stable ≡ some (segment seq rs))
      × All Built rs
      × HasId id rs

  -- The record is on the disk: in the current segment, or in an earlier one.
  abbrev pub OnDisk : ℕ → List (ℕ × Bytes) → List WalWriteRequest → ℕ → Type 0
  OnDisk seq stable done id = HasId id done ⊎ ((s : ℕ) × (s < seq) × InSegment id stable s)

  abbrev pub Kept : ℕ → List (ℕ × Bytes) → List WalWriteRequest → ℕ × Done → Type 0
  Kept seq stable done (id, answer) = answer ≡ ok tt → OnDisk seq stable done id

  -- What stands on the disk: `done` in the current segment, and every record that was answered.
  pub record IsStable (w : WalWriter) (done : List WalWriteRequest) : Type 0 where
    pub disk : get w.current_segment_seq w.stable ≡ some (segment w.current_segment_seq done)
    pub whole : All Built done
    pub kept : All (Kept w.current_segment_seq w.stable done) w.answers

  -- Between two batches: `fresh` was written behind `done` and not yet synced.
  pub record IsWriter (w : WalWriter) (done fresh : List WalWriteRequest) : Type 0 where
    pub on_disk : IsStable w done
    pub file :
        get w.current_segment_seq w.files ≡ some (segment w.current_segment_seq (done ++ fresh))
    pub offset : w.current_offset ≡ (frame_batch w.current_segment_seq header_len (done ++ fresh)).2
    pub built : All Built fresh

  abbrev pub Writing : WalWriter → Type 0
  Writing w = (done fresh : List WalWriteRequest) × IsWriter w done fresh

  abbrev pub Stopped : WalWriter → Type 0
  Stopped w = (done : List WalWriteRequest) × IsStable w done

  abbrev pub Goes : WalWriter × Done → Type 0
  Goes (w, ok _) = (w.pending_durable_acks ≡ []) × Writing w
  Goes (w, err e) = Stopped w
  Goes (w, panic) = ⊥

  answer_all-Kept :
      (seq : ℕ) (stable : List (ℕ × Bytes)) (done : List WalWriteRequest) (ids : List ℕ)
      → All (λ id. HasId id done) ids
      → All (Kept seq stable done) (answer_all (ok tt) ids)
  unfolding answer_all
  answer_all-Kept seq stable done [] a = tt
  answer_all-Kept seq stable done (id ∷ ids) a =
      (λ e. inl a.0, answer_all-Kept seq stable done ids a.1)

  failed-Kept :
      (seq : ℕ) (stable : List (ℕ × Bytes)) (done : List WalWriteRequest) (e : LogError)
      (ids : List ℕ)
      → All (Kept seq stable done) (answer_all (err e) ids)
  unfolding answer_all
  failed-Kept seq stable done e [] = tt
  failed-Kept seq stable done e (id ∷ ids) =
      (λ k. absurd (ground (arith, k)), failed-Kept seq stable done e ids)

  -- What is on the disk stays there when the current segment is synced.
  sync-Kept :
      (seq : ℕ) (stable : List (ℕ × Bytes)) (bytes : Bytes) (done fresh : List WalWriteRequest)
      (a : ℕ × Done)
      → Kept seq stable done a
      → Kept seq (insert seq bytes stable) (done ++ fresh) a
  sync-Kept seq stable bytes done fresh (id, answer) k e = elim (k e) [
    | inl here ↦ inl (HasId-left id done fresh here)
    | inr (s, before, (rs, there, b, has)) ↦
        inr (s, before, (rs, ground (arith, there, get-insert seq s bytes stable), b, has))
  ]

  module _ (w : WalWriter) (done fresh : List WalWriteRequest) (v : IsWriter w done fresh)
      (waiting : All (λ id. HasId id (done ++ fresh)) w.pending_durable_acks) where
    abbrev seq : ℕ
    seq = w.current_segment_seq

    abbrev synced_disk : List (ℕ × Bytes)
    synced_disk = insert seq (content (get seq w.files)) w.stable

    synced_disk-segment : get seq synced_disk ≡ some (segment seq (done ++ fresh))
    unfolding content
    synced_disk-segment =
        ground (arith, v.file, get-insert seq seq (content (get seq w.files)) w.stable)

    pub flushed-IsWriter : (now : ℕ) → IsWriter (flush_file true now w).0 (done ++ fresh) []
    unfolding flush_file
    flushed-IsWriter now = record {
      on_disk = record {
        disk = synced_disk-segment;
        whole = All-append Built done fresh v.on_disk.whole v.built;
        kept =
            All-append (Kept seq synced_disk (done ++ fresh)) w.answers _
              (All-map (Kept seq w.stable done) (Kept seq synced_disk (done ++ fresh)) w.answers
                (sync-Kept seq w.stable (content (get seq w.files)) done fresh) v.on_disk.kept)
              (answer_all-Kept seq synced_disk (done ++ fresh) w.pending_durable_acks waiting);
      };
      file =
          v.file
          ∙ ap (λ (rs : List WalWriteRequest). some (segment seq rs))
              (sym (append-nil (done ++ fresh)));
      offset =
          v.offset
          ∙ ap (λ (rs : List WalWriteRequest). (frame_batch seq header_len rs).2)
              (sym (append-nil (done ++ fresh)));
      built = tt;
    }

    pub unflushed-IsWriter : (now : ℕ) → IsWriter (flush_file false now w).0 done fresh
    unfolding flush_file
    unflushed-IsWriter now = record {
      on_disk = record {
        disk = v.on_disk.disk;
        whole = v.on_disk.whole;
        kept =
            All-append (Kept seq w.stable done) w.answers _ v.on_disk.kept
              (failed-Kept seq w.stable done _ w.pending_durable_acks);
      };
      file = v.file;
      offset = v.offset;
      built = v.built;
    }

    -- Whatever the fsync answers, it goes on or stops with every answer kept.
    pub flush_file-Goes : (synced : Bool) (now : ℕ) → Goes (flush_file synced now w)
    flush_file-Goes true now =
        unfold flush_file in (refl, (done ++ fresh, [], flushed-IsWriter now))
    flush_file-Goes false now = unfold flush_file in (done, (unflushed-IsWriter now).on_disk)
