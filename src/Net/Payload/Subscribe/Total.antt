-- ===== src/Net/Payload/Subscribe/Total.antt =====
-- `SubscribePayload::decode` on arbitrary bytes.
use blipmq.Prelude.{
  ℕ, ◌≤◌, arith, Bool, true, false, length, Returns, Returns-bind, length-drop, drop, take,
}
use blipmq.Wire.Buf.{Bytes, Buf}
use blipmq.Wire.Cursor.{get_uint, copy_to_bytes, get_uint-ok}
use blipmq.Wire.Utf8.{from_utf8}
use blipmq.Net.Frame.{FrameDecodeError}
use blipmq.Net.Payload.Subscribe.{read_group, read_offset, read_options, decode}

read_group-Returns :
    ⦃b : Buf⦄ (payload : Bytes) (has : Bool) (s : Bytes) → Returns (read_group payload has s)
unfolding read_group get_uint copy_to_bytes from_utf8
read_group-Returns payload false s = tt
read_group-Returns payload true s = ground arith

read_offset-Returns :
    ⦃b : Buf⦄ (payload : Bytes) (has : Bool) (s : Bytes) → Returns (read_offset payload has s)
unfolding read_offset get_uint
read_offset-Returns payload false s = tt
read_offset-Returns payload true s = ground arith

read_options-Returns :
    ⦃b : Buf⦄ (payload topic s : Bytes) → 1 ≤ length s → Returns (read_options payload topic s)
unfolding read_options
read_options-Returns ⦃b⦄ payload topic s h = rw (get_uint-ok {E = FrameDecodeError} 1 s h) (
    Returns-bind (read_group payload _ (drop 1 s)) _ (read_group-Returns payload _ (drop 1 s))
      λ g _.
        Returns-bind (read_offset payload _ g.1) _ (read_offset-Returns payload _ g.1)
          λ offset _. tt)

-- The decoder returns on any bytes, without a panic.
pub decode-Returns : ⦃b : Buf⦄ (payload : Bytes) → Returns (decode payload)
unfolding decode get_uint copy_to_bytes from_utf8
decode-Returns ⦃b⦄ payload =
    let n : ℕ = b.get 2 (take 2 payload) in
    let s : Bytes = drop 2 payload in
    ground (
      arith,
      length-drop 2 payload,
      length-drop n s,
      read_options-Returns payload (take n s) (drop n s),
    )
