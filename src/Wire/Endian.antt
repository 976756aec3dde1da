-- ===== src/Wire/Endian.antt =====
-- `to_le_bytes` and `from_le_bytes` of the standard library, as wal/src/lib.rs calls them, with
-- their laws, forwards and reversed.
use mathlib.Core.List.{reverse, reverse-cons, reverse-reverse}
use native.Mathlib.Nat.{pow-suc}
use blipmq.Prelude.{
  ℕ, zero, suc, ◌+◌, ◌*◌, ◌/◌, ◌%◌, ◌^◌, ◌<◌, ◌≡◌, refl, ap, ◌∙◌, [], ◌∷◌, arith, length,
  length-append, All, All-append,
}
use blipmq.Wire.Buf.{Bytes, IsByte}

unfoldable pub le_bytes : ℕ → ℕ → Bytes
le_bytes zero n = []
le_bytes (suc w) n = (n % 256) ∷ le_bytes w (n / 256)

unfoldable pub from_le_bytes : Bytes → ℕ
from_le_bytes [] = 0
from_le_bytes (b ∷ bs) = b + 256 * from_le_bytes bs

pub length-le_bytes : (w n : ℕ) → length (le_bytes w n) ≡ w
unfolding le_bytes
length-le_bytes zero n = refl
length-le_bytes (suc w) n = ap suc (length-le_bytes w (n / 256))

pub le_bytes-IsByte : (w n : ℕ) → All IsByte (le_bytes w n)
unfolding le_bytes
le_bytes-IsByte zero n = tt
le_bytes-IsByte (suc w) n = (omega arith, le_bytes-IsByte w (n / 256))

pub from_le_bytes-le_bytes : (w n : ℕ) → n < 256 ^ w → from_le_bytes (le_bytes w n) ≡ n
unfolding le_bytes from_le_bytes
from_le_bytes-le_bytes zero n h = omega arith
from_le_bytes-le_bytes (suc w) n h =
    omega (arith, from_le_bytes-le_bytes w (n / 256) (omega (arith, pow-suc 256 w)))

pub from_le_bytes-lt :
    (w : ℕ) (bs : Bytes) → All IsByte bs → length bs ≡ w → from_le_bytes bs < 256 ^ w
unfolding from_le_bytes
from_le_bytes-lt zero [] h e = omega arith
from_le_bytes-lt zero (b ∷ bs) h e = absurd (omega arith)
from_le_bytes-lt (suc w) [] h e = absurd (omega arith)
from_le_bytes-lt (suc w) (b ∷ bs) h e =
    omega (arith, pow-suc 256 w, from_le_bytes-lt w bs h.1 (omega arith))

pub le_bytes-from_le_bytes :
    (w : ℕ) (bs : Bytes) → All IsByte bs → length bs ≡ w → le_bytes w (from_le_bytes bs) ≡ bs
unfolding le_bytes from_le_bytes
le_bytes-from_le_bytes zero [] h e = refl
le_bytes-from_le_bytes zero (b ∷ bs) h e = absurd (omega arith)
le_bytes-from_le_bytes (suc w) [] h e = absurd (omega arith)
le_bytes-from_le_bytes (suc w) (b ∷ bs) h e =
    let low : (b + 256 * from_le_bytes bs) % 256 ≡ b = omega arith in
    let high : (b + 256 * from_le_bytes bs) / 256 ≡ from_le_bytes bs = omega arith in
    rw (low, high, le_bytes-from_le_bytes w bs h.1 (omega arith)) refl

pub length-reverse : (xs : Bytes) → length (reverse xs) ≡ length xs
length-reverse [] = refl
length-reverse (x ∷ xs) =
    omega
      (arith, ap length (reverse-cons x xs), length-append (reverse xs) (x ∷ []), length-reverse xs)

pub reverse-IsByte : (xs : Bytes) → All IsByte xs → All IsByte (reverse xs)
reverse-IsByte [] h = tt
reverse-IsByte (x ∷ xs) h =
    rw (reverse-cons x xs)
      (All-append IsByte (reverse xs) (x ∷ []) (reverse-IsByte xs h.1) (h.0, tt))

pub from_le_bytes-reverse :
    (w n : ℕ) → n < 256 ^ w → from_le_bytes (reverse (reverse (le_bytes w n))) ≡ n
from_le_bytes-reverse w n h = rw (reverse-reverse (le_bytes w n)) (from_le_bytes-le_bytes w n h)

pub reverse-le_bytes :
    (w : ℕ) (bs : Bytes)
    → All IsByte bs
    → length bs ≡ w
    → reverse (le_bytes w (from_le_bytes (reverse bs))) ≡ bs
reverse-le_bytes w bs h e =
    ap reverse (le_bytes-from_le_bytes w (reverse bs) (reverse-IsByte bs h) (length-reverse bs ∙ e))
    ∙ reverse-reverse bs

pub from_le_bytes-reverse-lt :
    (w : ℕ) (bs : Bytes) → All IsByte bs → length bs ≡ w → from_le_bytes (reverse bs) < 256 ^ w
from_le_bytes-reverse-lt w bs h e =
    from_le_bytes-lt w (reverse bs) (reverse-IsByte bs h) (length-reverse bs ∙ e)

pub reverse-le_bytes_one : (n : ℕ) → n < 256 → reverse (le_bytes 1 n) ≡ n ∷ []
unfolding le_bytes
reverse-le_bytes_one n h = let e : n % 256 ≡ n = omega arith in ap (λ (k : ℕ). k ∷ []) e
