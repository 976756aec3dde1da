-- ===== src/Wal/Writer/Layout.antt =====
-- A segment of the log of wal/src/lib.rs as the list of its records, and the write of a batch behind
-- them.
use blipmq.Prelude.{
  ◌==◌, true, ℕ, ◌+◌, ◌≡◌, ◌⊎◌, refl, sym, ap, ◌∙◌, arith, inl, inr, List, [], ◌∷◌, ◌++◌, All,
  length, length-append, drop, take_all, drop_all, append_assoc, append-nil,
}
use blipmq.Wire.Buf.{Bytes}
use blipmq.Wire.Crc32.{Crc32}
use blipmq.Wal.Record.{WalWriteRequest, header_len, frame_batch}
use blipmq.Wal.Record.Layout.{Built, Built-header, length-header_bytes}
use blipmq.Wal.Header.{write_header, length-write_header}
use blipmq.Wal.Writer.{overwrite}

-- The bytes of a segment with these records.
abbrev pub segment : ℕ → List WalWriteRequest → Bytes
segment seq rs = write_header ++ (frame_batch seq header_len rs).1

-- One of the records has the id.
abbrev pub HasId : ℕ → List WalWriteRequest → Type 0
HasId id [] = ⊥
HasId id (r ∷ rs) = (r.id ≡ id) ⊎ HasId id rs

pub HasId-left : (id : ℕ) (xs ys : List WalWriteRequest) → HasId id xs → HasId id (xs ++ ys)
HasId-left id [] ys h = elim h [ ]
HasId-left id (x ∷ xs) ys (inl e) = inl e
HasId-left id (x ∷ xs) ys (inr h) = inr (HasId-left id xs ys h)

pub HasId-right : (id : ℕ) (xs ys : List WalWriteRequest) → HasId id ys → HasId id (xs ++ ys)
HasId-right id [] ys h = h
HasId-right id (x ∷ xs) ys h = inr (HasId-right id xs ys h)

-- The next batch is laid out behind the records.
pub frame_batch-append-end :
    (seq offset : ℕ) (xs ys : List WalWriteRequest)
    → (frame_batch seq offset (xs ++ ys)).2 ≡ (frame_batch seq (frame_batch seq offset xs).2 ys).2
unfolding frame_batch
frame_batch-append-end seq offset [] ys = refl
frame_batch-append-end seq offset (x ∷ xs) ys =
    frame_batch-append-end seq (offset + (16 + length x.payload)) xs ys

frame_batch-append :
    (seq offset : ℕ) (xs ys : List WalWriteRequest)
    → (frame_batch seq offset (xs ++ ys)).1
      ≡ (frame_batch seq offset xs).1 ++ (frame_batch seq (frame_batch seq offset xs).2 ys).1
unfolding frame_batch
frame_batch-append seq offset [] ys = refl
frame_batch-append seq offset (x ∷ xs) ys =
    let o : ℕ = offset + (16 + length x.payload) in
    ap (λ (t : Bytes). x.header ++ (x.payload ++ t)) (frame_batch-append seq o xs ys)
    ∙ simp append_assoc

pub frame_batch-length :
    (seq offset : ℕ) (rs : List WalWriteRequest)
    → ⦃h : Crc32⦄ → All Built rs
    → offset + length (frame_batch seq offset rs).1 ≡ (frame_batch seq offset rs).2
unfolding frame_batch
frame_batch-length seq offset [] b = omega arith
frame_batch-length seq offset (r ∷ rs) b =
    let o : ℕ = offset + (16 + length r.payload) in
    let (hlen, e) = Built-header r b.0 in
    let n' : length r.header ≡ 16 = ap length e ∙ length-header_bytes r in
    omega (
      arith,
      n',
      frame_batch-length seq o rs b.1,
      length-append r.header (r.payload ++ (frame_batch seq o rs).1),
      length-append r.payload (frame_batch seq o rs).1,
    )

-- A write at the end of a segment appends to it.
pub overwrite-segment :
    (seq : ℕ) (xs ys : List WalWriteRequest)
    → ⦃h : Crc32⦄ → All Built xs
    → overwrite
        (frame_batch seq header_len xs).2
        (frame_batch seq (frame_batch seq header_len xs).2 ys).1
        (segment seq xs)
      ≡ segment seq (xs ++ ys)
unfolding overwrite
overwrite-segment seq xs ys b =
    let o : ℕ = (frame_batch seq 32 xs).2 in
    let len : length (segment seq xs) ≡ o = omega (
      arith,
      frame_batch-length seq 32 xs b,
      length-append write_header (frame_batch seq 32 xs).1,
      length-write_header,
    ) in
    let new : Bytes = (frame_batch seq o ys).1 in
    ap (λ (t : Bytes). t ++ (new ++ drop (o + length new) (segment seq xs)))
      (take_all (segment seq xs) o (omega (arith, len)))
    ∙ ap (λ (t : Bytes). segment seq xs ++ (new ++ t))
        (drop_all (o + length new) (segment seq xs) (omega (arith, len)))
    ∙ ap (λ (t : Bytes). segment seq xs ++ t) (append-nil new)
    ∙ append_assoc write_header (frame_batch seq 32 xs).1 new
    ∙ ap (λ (t : Bytes). write_header ++ t) (sym (frame_batch-append seq 32 xs ys))

pub length-zero : (ids : List ℕ) → (length ids == 0) ≡ true → ids ≡ []
length-zero [] e = refl
length-zero (id ∷ ids) e = absurd (ground arith)
