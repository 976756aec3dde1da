-- ===== src/Wire/Buf.antt =====
-- The fixed-width integers of the `bytes` crate (`put_u8`, `put_u16`, `put_u32`, `put_u64` and the
-- matching `get_`), which every encoder of net/src/frame.rs and core/src/lib.rs calls. The crate is
-- not part of the repository: its calls are an interface with the laws that its documentation
-- states. blipmq.Wire.Endian shows that the laws can be met.
use blipmq.Prelude.{ℕ, ◌^◌, ◌<◌, ◌≡◌, List, [], ◌∷◌, length, All}

abbrev pub Bytes : Type 0
Bytes = List ℕ

abbrev pub IsByte : ℕ → Type 0
IsByte b = b < 256

-- `put w n` is what writing the `w`-byte integer `n` appends, and `get w` reads `w` bytes.
pub record Buf : Type 0 where
  pub put : ℕ → ℕ → Bytes
  pub get : ℕ → Bytes → ℕ
  pub length-put : (w n : ℕ) → length (put w n) ≡ w
  pub put-IsByte : (w n : ℕ) → All IsByte (put w n)
  pub get-put : (w n : ℕ) → n < 256 ^ w → get w (put w n) ≡ n
  pub get-lt : (w : ℕ) (bs : Bytes) → All IsByte bs → length bs ≡ w → get w bs < 256 ^ w
  pub put-get : (w : ℕ) (bs : Bytes) → All IsByte bs → length bs ≡ w → put w (get w bs) ≡ bs
  pub put_u8 : (n : ℕ) → n < 256 → put 1 n ≡ n ∷ []
