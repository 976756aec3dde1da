-- ===== src/Net/Frame/RoundTrip.antt =====
-- What `encode_frame` writes, and that `try_decode_frame` reads it back from the head of a buffer,
-- leaves the rest, and asks for more on every proper prefix.
use blipmq.Prelude.{
  ℕ, ◌+◌, ◌^◌, ◌≤◌, ◌<◌, ◌≡◌, refl, none, some, [], ◌++◌, length, take, leb, if◌then◌else◌, ok, err,
  arith, append_assoc, append-nil, length-append, length-take, take-take, take-append,
}
use blipmq.Wire.Buf.{Bytes, Buf}
use blipmq.Wire.Cursor.{get_uint, get_uint-put, copy_to_bytes-append, advance-append}
use blipmq.Net.Frame.{
  Frame, FrameType, FrameDecodeError, payload_too_large, to_u8, try_from, encode_frame,
  try_decode_frame, split_frame, read_frame, finish, max_frame_size, hello,
}

-- The bytes of a frame: the length of what follows, the type, the id and the payload.
unfoldable pub frame_bytes : ⦃b : Buf⦄ → Frame → Bytes
frame_bytes ⦃b⦄ f =
    b.put 4 (9 + length f.payload)
    ++ (b.put 1 (to_u8 f.msg_type) ++ (b.put 8 f.correlation_id ++ f.payload))

-- `encode_frame` appends the bytes of the frame when the body fits the limit, and fails otherwise.
pub encode_frame_lem :
    ⦃b : Buf⦄ (f : Frame) (dst : Bytes)
    → encode_frame f dst ≡ (
        if leb (9 + length f.payload) max_frame_size
        then ok (dst ++ frame_bytes f)
        else err (payload_too_large (length f.payload)))
unfolding encode_frame frame_bytes
encode_frame_lem f dst = ground arith

-- Every frame type is read back from its byte.
pub try_from-to_u8 : (t : FrameType) → try_from (to_u8 t) ≡ ok t
unfolding try_from to_u8
try_from-to_u8 hello = refl
try_from-to_u8 t = refl

to_u8-lt : (t : FrameType) → to_u8 t < 256
unfolding to_u8
to_u8-lt hello = omega arith
to_u8-lt t = omega arith

-- The length field at the head of a buffer.
read_length :
    {E : Type 0} ⦃b : Buf⦄ (n : ℕ) (rest : Bytes)
    → n < 2 ^ 32
    → get_uint {E = E} 4 (take 4 (b.put 4 n ++ rest)) ≡ ok (n, [])
read_length {E} ⦃b⦄ n rest h =
    rw (take-append (b.put 4 n) rest 4 (b.length-put 4 n))
      (rw append-nil at (get_uint-put {E = E} 4 n [] h))

pub length-frame_bytes : ⦃b : Buf⦄ (f : Frame) → length (frame_bytes f) ≡ 13 + length f.payload
unfolding frame_bytes
length-frame_bytes ⦃b⦄ f =
    simp
      (
        length-append,
        b.length-put 4 (9 + length f.payload),
        b.length-put 1 (to_u8 f.msg_type),
        b.length-put 8 f.correlation_id,
      )
      (omega arith)

read_frame-frame_bytes :
    ⦃b : Buf⦄ (f : Frame) → f.correlation_id < 2 ^ 64 → read_frame (frame_bytes f) ≡ ok (some f)
unfolding frame_bytes read_frame
read_frame-frame_bytes ⦃b⦄ f h =
    rw
      (advance-append 4 (b.put 4 (9 + length f.payload))
        (b.put 1 (to_u8 f.msg_type) ++ (b.put 8 f.correlation_id ++ f.payload)) (b.length-put 4 _))
      (rw
        (
          get_uint-put 1 (to_u8 f.msg_type) (b.put 8 f.correlation_id ++ f.payload)
              (to_u8-lt f.msg_type),
          try_from-to_u8 f.msg_type,
        )
        (rw (get_uint-put 8 f.correlation_id f.payload h) refl))

read_length-frame_bytes :
    {E : Type 0} ⦃b : Buf⦄ (f : Frame) (rest : Bytes)
    → 9 + length f.payload ≤ max_frame_size
    → get_uint {E = E} 4 (take 4 (frame_bytes f ++ rest)) ≡ ok (9 + length f.payload, [])
unfolding frame_bytes
read_length-frame_bytes ⦃b⦄ f rest h =
    rw append_assoc (read_length (9 + length f.payload) _ (omega arith))

-- A frame at the head of a buffer is read, and the rest of the buffer is left.
pub try_decode_frame-frame_bytes :
    ⦃b : Buf⦄ (f : Frame) (rest : Bytes)
    → f.correlation_id < 2 ^ 64
    → 9 + length f.payload ≤ max_frame_size
    → try_decode_frame (frame_bytes f ++ rest) ≡ (rest, ok (some f))
unfolding try_decode_frame split_frame finish
try_decode_frame-frame_bytes ⦃b⦄ f rest hc hl = ground (
  arith,
  read_length-frame_bytes {E = FrameDecodeError} f rest hl,
  length-append (frame_bytes f) rest,
  length-frame_bytes f,
  copy_to_bytes-append {E = FrameDecodeError} (4 + (9 + length f.payload)) (frame_bytes f) rest,
  read_frame-frame_bytes f hc,
)

-- When `encode_frame` succeeds on a frame with a `u64` correlation id, `try_decode_frame` reads the
-- frame back from what was appended to the buffer, whatever follows, and leaves the rest.
pub try_decode_frame-encode_frame :
    ⦃b : Buf⦄ (f : Frame) (dst out rest : Bytes)
    → f.correlation_id < 2 ^ 64
    → encode_frame f dst ≡ ok out
    → (wire : Bytes) × (out ≡ dst ++ wire) × (try_decode_frame (wire ++ rest) ≡ (rest, ok (some f)))
try_decode_frame-encode_frame f dst out rest hc e = (
  frame_bytes f,
  ground (arith, encode_frame_lem f dst),
  try_decode_frame-frame_bytes f rest hc (ground (arith, encode_frame_lem f dst)),
)

read_length-take :
    {E : Type 0} ⦃b : Buf⦄ (f : Frame) (n : ℕ)
    → 9 + length f.payload ≤ max_frame_size
    → 4 ≤ n
    → get_uint {E = E} 4 (take 4 (take n (frame_bytes f))) ≡ ok (9 + length f.payload, [])
read_length-take {E} f n hl hn =
    rw (take-take 4 n (frame_bytes f) hn)
      (rw append-nil at (read_length-frame_bytes {E = E} f [] hl))

-- A proper prefix of a frame within the maximum size is not an error: the decoder asks for more and
-- leaves the buffer.
try_decode_frame_incomplete :
    ⦃b : Buf⦄ (f : Frame) (n : ℕ)
    → 9 + length f.payload ≤ max_frame_size
    → n < length (frame_bytes f)
    → try_decode_frame (take n (frame_bytes f)) ≡ (take n (frame_bytes f), ok none)
unfolding try_decode_frame split_frame
try_decode_frame_incomplete f n hl hn = ground (
  arith,
  length-take n (frame_bytes f),
  length-frame_bytes f,
  read_length-take {E = FrameDecodeError} f n hl,
)
