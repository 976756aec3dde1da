-- ===== src/Net/Frame/Total.antt =====
-- `try_decode_frame` on arbitrary bytes.
use blipmq.Prelude.{
  ℕ, ◌+◌, ◌≤◌, ◌≡◌, ◌⊎◌, length, take, drop, length-take, length-drop, Returns, arith, Bool-cases,
  take-take, inl, inr, refl, ltb, ok, some, ◌<◌,
}
use blipmq.Wire.Buf.{Bytes, Buf}
use blipmq.Wire.Cursor.{get_uint, get_uint-ok, advance, copy_to_bytes}
use blipmq.Net.Frame.{
  Frame, FrameDecodeError, try_from, try_decode_frame, split_frame, read_frame, finish,
  max_frame_size,
}

try_from-Returns : (v : ℕ) → Returns (try_from v)
unfolding try_from
try_from-Returns v = ground arith

read_frame-Returns : ⦃b : Buf⦄ (s : Bytes) → 13 ≤ length s → Returns (read_frame s)
unfolding read_frame get_uint advance
read_frame-Returns ⦃b⦄ s h = ground (
  arith,
  length-drop 4 s,
  length-drop 1 (drop 4 s),
  try_from-Returns (b.get 1 (take 1 (drop 4 s))),
)

-- The buffer of `src` after the call: as it was, or without a frame whose length field is `n`.
abbrev pub TakesFrame : ℕ → Bytes → Bytes → Type 0
TakesFrame n src left =
    (left ≡ src)
    ⊎ ((9 ≤ n) × (n ≤ max_frame_size) × (4 + n ≤ length src) × (left ≡ drop (4 + n) src))

split_frame-Returns : ⦃b : Buf⦄ (src r : Bytes) (n : ℕ) → Returns (split_frame src (ok (n, r))).1
unfolding split_frame finish copy_to_bytes
split_frame-Returns src r n =
    ground (arith, length-take (4 + n) src, read_frame-Returns (take (4 + n) src))

split_frame-TakesFrame :
    ⦃b : Buf⦄ (src r : Bytes) (n : ℕ) → TakesFrame n src (split_frame src (ok (n, r))).0
unfolding split_frame finish copy_to_bytes
split_frame-TakesFrame src r n = ground arith

-- On any buffer the decoder returns, without a panic. It leaves the buffer as it was, or takes
-- one frame of the length that the length field states off its head.
pub try_decode_frame_total :
    ⦃b : Buf⦄ (src : Bytes)
    → Returns (try_decode_frame src).1
      × TakesFrame (b.get 4 (take 4 src)) src (try_decode_frame src).0
unfolding try_decode_frame
try_decode_frame_total ⦃b⦄ src =
    let n : ℕ = b.get 4 (take 4 src) in
    elim (Bool-cases (ltb (length src) 4)) [
      | inl short ↦ rw short (tt, inl refl)
      | inr long ↦
          rw
            (
              long,
              get_uint-ok {E = FrameDecodeError} 4 (take 4 src) (ground (arith, length-take 4 src)),
              take-take 4 4 src (omega arith),
            )
            (
              split_frame-Returns src (drop 4 (take 4 src)) n,
              split_frame-TakesFrame src (drop 4 (take 4 src)) n,
            )
    ]

split_frame-shrinks :
    ⦃b : Buf⦄ (src r : Bytes) (n : ℕ) (f : Frame)
    → (split_frame src (ok (n, r))).1 ≡ ok (some f)
    → length (split_frame src (ok (n, r))).0 < length src
unfolding split_frame finish copy_to_bytes
split_frame-shrinks src r n f h = ground (arith, length-drop (4 + n) src)

-- A frame that was decoded was taken off the buffer.
pub try_decode_frame-shrinks :
    ⦃b : Buf⦄ (src : Bytes) (f : Frame)
    → (try_decode_frame src).1 ≡ ok (some f)
    → length (try_decode_frame src).0 < length src
unfolding try_decode_frame
try_decode_frame-shrinks ⦃b⦄ src f = elim (Bool-cases (ltb (length src) 4)) [
  | inl short ↦ rw short (λ h. absurd (ground (arith, h)))
  | inr long ↦
      rw
        (
          long,
          get_uint-ok {E = FrameDecodeError} 4 (take 4 src) (ground (arith, length-take 4 src)),
        )
        (split_frame-shrinks src (drop 4 (take 4 src)) (b.get 4 (take 4 (take 4 src))) f)
]
