-- ===== src/Wal/Header.antt =====
-- wal/src/lib.rs: the header of a segment, `write_header` and `validate_header`.
use blipmq.Prelude.{
  ℕ, ◌≡◌, refl, [], ◌∷◌, ◌++◌, length, take, drop, ltb, ◌==◌, not, Outcome, ok, ◌>>◌, reject_if,
}
use blipmq.Wire.Buf.{Bytes}
use blipmq.Wire.Endian.{le_bytes, from_le_bytes}
use blipmq.Core.LogError.{LogError, corruption, text, text_number}
use blipmq.Core.Subject.{bytes_eq}
use blipmq.Wal.Record.{header_len}

abbrev pub header_magic : Bytes
header_magic = b'B' ∷ b'L' ∷ b'I' ∷ b'P' ∷ b'W' ∷ b'A' ∷ b'L' ∷ 0 ∷ []

abbrev pub header_version : ℕ
header_version = 3

-- An array of zeros.
abbrev zeros : ℕ → Bytes
zeros n = le_bytes n 0

-- The bytes that `write_header` writes to an empty file.
unfoldable pub write_header : Bytes
unfolding le_bytes
write_header =
    let buf = zeros header_len in
    let buf = header_magic ++ drop 8 buf in take 8 buf ++ (le_bytes 4 header_version ++ drop 12 buf)

-- The file is read from its start.
unfoldable pub validate_header : Bytes → Outcome LogError (Unit {0})
validate_header file = do
  let buf = take header_len file
  reject_if (ltb (length buf) header_len)
      (corruption (text "unexpected EOF while reading WAL header"))
  reject_if (not (bytes_eq (take 8 buf) header_magic)) (corruption (text "invalid WAL magic"))
  let version = from_le_bytes (take 4 (drop 8 buf))
  reject_if (not (version == header_version))
      (corruption (text_number "unsupported WAL version" version))
  ok tt

-- A new segment is accepted when it is opened again, whatever was appended, and its header has the
-- length at which the records begin.
pub validate_header-write_header :
    (records : Bytes)
    → (validate_header (write_header ++ records) ≡ ok tt) × (length write_header ≡ header_len)
unfolding validate_header write_header bytes_eq le_bytes from_le_bytes
validate_header-write_header records = (refl, refl)

pub length-write_header : length write_header ≡ header_len
length-write_header = (validate_header-write_header []).1
