-- ===== src/Net/Payload/Publish/Total.antt =====
-- `PublishPayload::decode` on arbitrary bytes.
use blipmq.Prelude.{
  ℕ, ◌+◌, ◌≡◌, arith, Bool, true, false, Option, Outcome, ok, length, Returns, length-drop, drop,
  take, ltb, Bool-cases, inl, inr, ◌>>=◌,
}
use blipmq.Wire.Buf.{Bytes, Buf}
use blipmq.Wire.Cursor.{get_uint, get_uint-ok, advance, slice}
use blipmq.Wire.Utf8.{IsUtf8}
use blipmq.Net.Frame.{FrameDecodeError}
use blipmq.Net.Payload.Common.{u16_len}
use blipmq.Net.Payload.Publish.{
  PublishPayload, encode, key_len_u16, PublishPayload, read_ttl, read_key, read_body, decode,
}

-- The reads keep `header_len` at the position of the cursor in the payload.
abbrev AtCursor : {A : Type 0} → Bytes → Outcome FrameDecodeError (A × Bytes × ℕ) → Type 0
AtCursor payload (Outcome.ok (a, s, h)) = h + length s ≡ length payload
AtCursor payload (Outcome.err e) = Unit
AtCursor payload Outcome.panic = ⊥

read_ttl-AtCursor :
    ⦃b : Buf⦄ (payload : Bytes) (has : Bool) (s : Bytes) (h : ℕ)
    → h + length s ≡ length payload
    → AtCursor payload (read_ttl payload has s h)
unfolding read_ttl get_uint
read_ttl-AtCursor payload false s h e = e
read_ttl-AtCursor payload true s h e = ground (arith, length-drop 4 s)

read_key-AtCursor :
    ⦃b : Buf⦄ (payload : Bytes) (has : Bool) (s : Bytes) (h : ℕ)
    → h + length s ≡ length payload
    → AtCursor payload (read_key payload has s h)
unfolding read_key get_uint slice advance
read_key-AtCursor payload false s h e = e
read_key-AtCursor ⦃b⦄ payload true s h e =
    let n : ℕ = b.get 2 (take 2 s) in ground (arith, length-drop 2 s, length-drop n (drop 2 s))

read_body-Returns :
    ⦃b : Buf⦄ (payload : Bytes) (qos : ℕ) (ttl : Option ℕ) (key : Option Bytes) (s : Bytes) (h : ℕ)
    → h + length s ≡ length payload
    → Returns (read_body payload qos ttl key s h)
unfolding read_body get_uint slice
read_body-Returns ⦃b⦄ payload qos ttl key s h e = ground (arith, length-drop 2 s)

AtCursor-bind :
    {A : Type 0} (payload : Bytes) (m : Outcome FrameDecodeError (A × Bytes × ℕ))
    (f : A × Bytes × ℕ → Outcome FrameDecodeError PublishPayload)
    → AtCursor payload m
    → ((a : A) (s : Bytes) (h : ℕ) → h + length s ≡ length payload → Returns (f (a, s, h)))
    → Returns (m >>= f)
AtCursor-bind payload (Outcome.ok (a, s, h)) f e k = k a s h e
AtCursor-bind payload (Outcome.err e) f h k = tt
AtCursor-bind payload Outcome.panic f h k = h

-- The decoder returns on any bytes, without a panic.
pub decode-Returns : ⦃b : Buf⦄ (payload : Bytes) → Returns (decode payload)
unfolding decode
decode-Returns ⦃b⦄ payload = elim (Bool-cases (ltb (length payload) 3)) [
  | inl short ↦ rw short tt
  | inr long ↦
      rw (long, get_uint-ok {E = FrameDecodeError} 1 payload (ground arith))
        (AtCursor-bind payload (read_ttl payload _ (drop 1 payload) 1) _
          (read_ttl-AtCursor payload _ (drop 1 payload) 1 (ground (arith, length-drop 1 payload)))
          λ ttl s h e.
            AtCursor-bind payload (read_key payload _ s h) _ (read_key-AtCursor payload _ s h e)
              λ key s' h' e'. read_body-Returns payload _ ttl key s' h' e')
]

-- The topic of a payload that was read is UTF-8: `topic_str` may skip the check.
pub publish_decode-IsUtf8 :
    ⦃b : Buf⦄ (payload : Bytes) {p : PublishPayload} → decode payload ≡ ok p → IsUtf8 p.topic
unfolding decode read_body
publish_decode-IsUtf8 payload e = ground arith

-- A payload is encoded, or refused as too large.
pub publish_encode-Returns : ⦃b : Buf⦄ (p : PublishPayload) → Returns (encode p)
unfolding encode key_len_u16 u16_len
publish_encode-Returns p = ground arith
