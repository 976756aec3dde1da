-- ===== src/Wire/Cursor.antt =====
-- A cursor over a byte slice: `Buf::get_uN`, `copy_to_bytes`, `advance`, `Bytes::slice` and
-- `split_to`. Each of them panics when the slice is too short. A cursor is the list of the bytes
-- that are left, and a read returns its value and the cursor behind it.
use blipmq.Prelude.{
  ◌+◌, ℕ, ◌-◌, ◌^◌, ◌<◌, ◌≡◌, ◌++◌, arith, length, length-append, take, drop, take-append,
  drop-append, Outcome, ok, panic, ◌≤◌, ltb, leb, ◌&&◌, if◌then◌else◌,
}
use blipmq.Wire.Buf.{Bytes, Buf}

-- `slice.get_uN()`, for N = 8 * w.
unfoldable pub get_uint : {E : Type 0} ⦃b : Buf⦄ → ℕ → Bytes → Outcome E (ℕ × Bytes)
get_uint ⦃b⦄ w s = if ltb (length s) w then panic else ok (b.get w (take w s), drop w s)

-- `slice.copy_to_bytes(n)`, and `split_to(n)` on a `BytesMut`.
unfoldable pub copy_to_bytes : {E : Type 0} → ℕ → Bytes → Outcome E (Bytes × Bytes)
copy_to_bytes n s = if ltb (length s) n then panic else ok (take n s, drop n s)

-- `slice.advance(n)`
unfoldable pub advance : {E : Type 0} → ℕ → Bytes → Outcome E Bytes
advance n s = if ltb (length s) n then panic else ok (drop n s)

-- `payload.slice(from..to)`
unfoldable pub slice : {E : Type 0} → ℕ → ℕ → Bytes → Outcome E Bytes
slice from to s =
    if leb from to && leb to (length s) then ok (take (to - from) (drop from s)) else panic

-- What was written is read back, whatever follows.
pub get_uint-put :
    {E : Type 0} ⦃b : Buf⦄ (w n : ℕ) (rest : Bytes)
    → n < 256 ^ w
    → get_uint {E = E} w (b.put w n ++ rest) ≡ ok (n, rest)
unfolding get_uint
get_uint-put ⦃b⦄ w n rest h =
    let len : length (b.put w n) ≡ w = b.length-put w n in
    rw (take-append (b.put w n) rest w len, drop-append (b.put w n) rest w len, b.get-put w n h)
      (ground (arith, len, length-append (b.put w n) rest))

pub copy_to_bytes-append :
    {E : Type 0} (n : ℕ) (s rest : Bytes)
    → length s ≡ n
    → copy_to_bytes {E = E} n (s ++ rest) ≡ ok (s, rest)
unfolding copy_to_bytes
copy_to_bytes-append n s rest len =
    rw (take-append s rest n len, drop-append s rest n len)
      (ground (arith, len, length-append s rest))

pub advance-append :
    {E : Type 0} (n : ℕ) (s rest : Bytes) → length s ≡ n → advance {E = E} n (s ++ rest) ≡ ok rest
unfolding advance
advance-append n s rest len =
    rw (drop-append s rest n len) (ground (arith, len, length-append s rest))

-- A read of no more bytes than there are does not panic.
pub get_uint-ok :
    {E : Type 0} ⦃b : Buf⦄ (w : ℕ) (s : Bytes)
    → w ≤ length s
    → get_uint {E = E} w s ≡ ok (b.get w (take w s), drop w s)
unfolding get_uint
get_uint-ok w s h = ground arith

pub copy_to_bytes-ok :
    {E : Type 0} (n : ℕ) (s : Bytes)
    → n ≤ length s
    → copy_to_bytes {E = E} n s ≡ ok (take n s, drop n s)
unfolding copy_to_bytes
copy_to_bytes-ok n s h = ground arith

pub advance-ok :
    {E : Type 0} (n : ℕ) (s : Bytes) → n ≤ length s → advance {E = E} n s ≡ ok (drop n s)
unfolding advance
advance-ok n s h = ground arith

-- The part `mid` of a payload, by its position.
pub slice-append :
    {E : Type 0} (payload front mid back : Bytes) (from to : ℕ)
    → payload ≡ front ++ (mid ++ back)
    → length front ≡ from
    → from + length mid ≡ to
    → slice {E = E} from to payload ≡ ok mid
unfolding slice
slice-append payload front mid back from to e hf ht =
    rw (e, drop-append front (mid ++ back) from hf, take-append mid back (to - from) (omega arith))
      (ground (arith, length-append front (mid ++ back), length-append mid back))
