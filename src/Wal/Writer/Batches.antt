-- ===== src/Wal/Writer/Batches.antt =====
-- One batch of the writer of wal/src/lib.rs that succeeds: how long its segment is, and who is answered.
use blipmq.Prelude.{
  ℕ, ◌+◌, ◌-◌, ◌^◌, ◌≤◌, ◌<◌, ◌≡◌, ◌⊎◌, refl, sym, ap, subst, ◌∙◌, arith, Bool, true, false, not,
  ◌||◌, ltb, ◌==◌, if-holds, inl, inr, List, [], ◌∷◌, ◌++◌, append-nil, length, Option, none, some,
  is_some, ok, err, panic,
}
use blipmq.Core.TagMap.{get}
use blipmq.Wal.Record.{WalWriteRequest, header_len, frame_batch}
use blipmq.Wal.Writer.Layout.{length-zero}
use blipmq.Wal.Writer.{
  WalWriter, FileSystem, WalConfig, Done, answer_all, flush_file, and_then, put_header,
  next_segment, roll_segment, new_acks, maybe_sync, due, note_records, settle, put_bytes,
  write_records_as, write_records, is_full, batch_size, write_batch,
}

frame_batch-end :
    (seq offset : ℕ) (rs : List WalWriteRequest)
    → (frame_batch seq offset rs).2 ≡ offset + batch_size rs
unfolding frame_batch batch_size
frame_batch-end seq offset [] = omega arith
frame_batch-end seq offset (r ∷ rs) =
    omega (arith, frame_batch-end seq (offset + (16 + length r.payload)) rs)

-- What holds of the writer if the step succeeded.
abbrev IfOk : (WalWriter → Type 0) → WalWriter × Done → Type 0
IfOk Q out = out.1 ≡ ok tt → Q out.0

and_then-IfOk :
    (Q R : WalWriter → Type 0) (rest : WalWriter → WalWriter × Done) (out : WalWriter × Done)
    → IfOk R out
    → ((w : WalWriter) → R w → IfOk Q (rest w))
    → IfOk Q (and_then rest out)
unfolding and_then
and_then-IfOk Q R rest (w, ok _) h more = more w (h refl)
and_then-IfOk Q R rest (w, err e) h more = λ k. absurd (ground (arith, k))
and_then-IfOk Q R rest (w, panic) h more = λ k. absurd (ground (arith, k))

-- Where the writer stands, its configuration, who waits and who was answered.
record At (config : WalConfig) (offset : ℕ) (answers : List (ℕ × Done)) (w : WalWriter)
    : Type 0 where
  same_config : w.config ≡ config
  there : w.current_offset ≡ offset
  nobody : w.pending_durable_acks ≡ []
  answered : w.answers ≡ answers

put_header-At :
    (failed : Option ℕ) (next : ℕ) (w : WalWriter)
    → w.pending_durable_acks ≡ []
    → IfOk (At w.config header_len w.answers) (put_header next failed w)
unfolding put_header
put_header-At none next w p =
    λ k. record { same_config = refl; there = refl; nobody = p; answered = refl }
put_header-At (some n) next w p = λ k. absurd (ground (arith, k))

next_segment-At :
    (fs : FileSystem) (w : WalWriter)
    → w.pending_durable_acks ≡ []
    → IfOk (At w.config header_len w.answers) (next_segment fs w)
unfolding next_segment
next_segment-At fs w p =
    let P = IfOk (At w.config header_len w.answers) in
    if-holds P (not (ltb (w.current_segment_seq + 1) (2 ^ 64))) _ _
      (λ _ k. absurd (ground (arith, k)))
      λ _.
        if-holds P (not fs.created || is_some (get (w.current_segment_seq + 1) w.files)) _ _
          (λ _ k. absurd (ground (arith, k)))
          (λ _. put_header-At fs.header_failed (w.current_segment_seq + 1) w p)

-- An fsync that succeeds answers those who wait.
flush_file-At :
    (synced : Bool) (now : ℕ) (w : WalWriter)
    → IfOk
        (At w.config w.current_offset (w.answers ++ answer_all (ok tt) w.pending_durable_acks))
        (flush_file synced now w)
unfolding flush_file
flush_file-At true now w =
    λ k. record { same_config = refl; there = refl; nobody = refl; answered = refl }
flush_file-At false now w = λ k. absurd (ground (arith, k))

none_answered :
    (w : WalWriter)
    → w.pending_durable_acks ≡ []
    → w.answers ++ answer_all (ok tt) w.pending_durable_acks ≡ w.answers
unfolding answer_all
none_answered w p =
    ap (λ (ids : List ℕ). w.answers ++ answer_all (ok tt) ids) p ∙ append-nil w.answers

roll_segment-At :
    (fs : FileSystem) (w : WalWriter)
    → w.pending_durable_acks ≡ []
    → IfOk (At w.config header_len w.answers) (roll_segment fs w)
unfolding roll_segment
roll_segment-At fs w p =
    and_then-IfOk (At w.config header_len w.answers) (At w.config w.current_offset w.answers)
      (next_segment fs) _
      (subst
        (λ (a : List (ℕ × Done)).
          IfOk (At w.config w.current_offset a) (flush_file fs.full_synced fs.now w))
        (none_answered w p) (flush_file-At fs.full_synced fs.now w))
      (λ w' at k.
        let done = next_segment-At fs w' at.nobody k in
        record {
          same_config = done.same_config ∙ at.same_config;
          there = done.there;
          nobody = done.nobody;
          answered = done.answered ∙ at.answered;
        })

settle-At :
    (fs : FileSystem) (w : WalWriter)
    → IfOk
        (At w.config w.current_offset (w.answers ++ answer_all (ok tt) w.pending_durable_acks))
        (settle fs w)
unfolding settle maybe_sync
settle-At fs w =
    let P =
      IfOk
        (At w.config w.current_offset (w.answers ++ answer_all (ok tt) w.pending_durable_acks)) in
    let synced : P (flush_file fs.synced fs.now w) = flush_file-At fs.synced fs.now w in
    if-holds P (length w.pending_durable_acks == 0) _ _
      (λ empty.
        if-holds P
          (due w.config.fsync_every_n w.unflushed_records
            || due w.config.fsync_interval (fs.now - w.last_fsync))
          _ _ (λ _. synced)
          (λ _ k.
            let none_left : w.pending_durable_acks ≡ [] =
              length-zero w.pending_durable_acks empty in
            record {
              same_config = refl;
              there = refl;
              nobody = none_left;
              answered = sym (none_answered w none_left);
            }))
      (λ _. synced)

module _ (fs : FileSystem) (records : List WalWriteRequest) (w : WalWriter)
    (p : w.pending_durable_acks ≡ []) where
  abbrev Written : WalWriter → Type 0
  Written =
      At w.config (w.current_offset + batch_size records)
        (w.answers ++ answer_all (ok tt) (new_acks records))

  write_records_as-At : (failed : Option ℕ) → IfOk Written (write_records_as failed fs records w)
  unfolding write_records_as note_records
  write_records_as-At none = λ k.
      let seq : ℕ = w.current_segment_seq in
      let out =
        settle-At fs
          (note_records records (put_bytes (frame_batch seq w.current_offset records).1 w)) k in
      record {
        same_config = out.same_config;
        there = out.there ∙ frame_batch-end seq w.current_offset records;
        nobody = out.nobody;
        answered =
            out.answered
            ∙ ap (λ (ids : List ℕ). w.answers ++ answer_all (ok tt) (ids ++ new_acks records)) p;
      }
  write_records_as-At (some n) = λ k. absurd (ground (arith, k))

  write_records-At : IfOk Written (write_records fs records w)
  unfolding write_records
  write_records-At = write_records_as-At fs.records_failed

-- What the batch leaves, from what the writer was before.
abbrev pub Batched : List WalWriteRequest → WalWriter → WalWriter → Type 0
Batched records w w' =
    (w'.answers ≡ w.answers ++ answer_all (ok tt) (new_acks records))
    × (w'.pending_durable_acks ≡ [])
    × ((w'.current_offset ≤ w.config.segment_bytes)
        ⊎ (w'.current_offset ≡ header_len + batch_size records))

fits :
    (records : List WalWriteRequest) (w : WalWriter)
    → header_len ≤ w.current_offset
    → w.config.segment_bytes < 2 ^ 64 - 1
    → is_full w (batch_size records) ≡ false
    → (w.current_offset + batch_size records ≤ w.config.segment_bytes)
      ⊎ (w.current_offset + batch_size records ≡ header_len + batch_size records)
unfolding is_full
fits records w low small room = ground arith

-- A batch that succeeds, with nobody waiting before it: every caller of `append_durable` in it is
-- answered without an error, in the order of the records, nobody else is, and nobody waits. The segment
-- that it went into is no longer than `segment_bytes`, or holds nothing but the batch.
pub write_batch-Batched :
    (fs : FileSystem) (records : List WalWriteRequest) (w : WalWriter)
    → w.pending_durable_acks ≡ []
    → header_len ≤ w.current_offset
    → w.config.segment_bytes < 2 ^ 64 - 1
    → (write_batch fs records w).1 ≡ ok tt
    → Batched records w (write_batch fs records w).0
unfolding write_batch
write_batch-Batched fs records w p low small =
    if-holds (IfOk (Batched records w)) (is_full w (batch_size records)) _ _
      (λ _.
        and_then-IfOk (Batched records w) (At w.config header_len w.answers)
          (write_records fs records) _ (roll_segment-At fs w p)
          (λ w' at k.
            let out = write_records-At fs records w' at.nobody k in
            (
              out.answered
                  ∙ ap (λ (a : List (ℕ × Done)). a ++ answer_all (ok tt) (new_acks records))
                      at.answered,
              out.nobody,
              inr (out.there ∙ ap (λ (o : ℕ). o + batch_size records) at.there),
            )))
      (λ room k.
        let out = write_records-At fs records w p k in
        (
          out.answered,
          out.nobody,
          elim (fits records w low small room) [
            | inl short ↦ inl (omega (arith, short, out.there))
            | inr alone ↦ inr (out.there ∙ alone)
          ],
        ))
