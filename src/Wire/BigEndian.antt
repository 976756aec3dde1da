-- ===== src/Wire/BigEndian.antt =====
-- The big-endian integers that the documentation of the `bytes` crate describes, as a value of the
-- interface: the laws can be met.
use mathlib.Core.List.{reverse}
use blipmq.Prelude.{◌∙◌}
use blipmq.Wire.Buf.{Buf}
use blipmq.Wire.Endian.{
  le_bytes, from_le_bytes, length-le_bytes, le_bytes-IsByte, length-reverse, reverse-IsByte,
  from_le_bytes-reverse, from_le_bytes-reverse-lt, reverse-le_bytes, reverse-le_bytes_one,
}

instance abbrev pub big_endian : Buf
big_endian = record {
  put = λ w n. reverse (le_bytes w n);
  get = λ w bs. from_le_bytes (reverse bs);
  length-put = λ w n. length-reverse (le_bytes w n) ∙ length-le_bytes w n;
  put-IsByte = λ w n. reverse-IsByte (le_bytes w n) (le_bytes-IsByte w n);
  get-put = from_le_bytes-reverse;
  get-lt = from_le_bytes-reverse-lt;
  put-get = reverse-le_bytes;
  put_u8 = reverse-le_bytes_one;
}
