-- ===== src/Wire/Text.antt =====
-- The bytes of the texts in the program: a string literal, which is ASCII, and `{}` of a number in
-- `format!`.
use Prim.Native.Char.{code}
use Prim.Native.String.{String}
use blipmq.Prelude.{ℕ, zero, suc, ◌+◌, ◌/◌, ◌%◌, ltb, if◌then◌else◌, [], ◌∷◌, ◌++◌}
use blipmq.Wire.Buf.{Bytes}

unfoldable pub literal : String → Bytes
literal String.[] = []
literal (String.◌∷◌ c s) = code c ∷ literal s

-- A number below 10 ^ rounds has no more digits than that.
unfoldable pub digits : ℕ → ℕ → Bytes
digits zero n = []
digits (suc rounds) n =
    let front = digits rounds (n / 10) in
    if ltb n 10 then (b'0' + n) ∷ [] else front ++ ((b'0' + n % 10) ∷ [])

-- A `u64` has 20 digits at most.
unfoldable pub decimal : ℕ → Bytes
unfolding digits
decimal n = digits 20 n
