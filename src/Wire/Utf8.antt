-- ===== src/Wire/Utf8.antt =====
-- `std::str::from_utf8`, as a machine over the bytes: what may come next, by the table of
-- well-formed byte sequences of the Unicode standard. A `String` of the program is the list of its
-- bytes, which this test accepts.
use blipmq.Prelude.{
  ℕ, zero, suc, ◌≡◌, refl, Bool, true, false, ◌&&◌, [], ◌∷◌, ◌++◌, ltb, leb, ◌==◌, if◌then◌else◌,
  Outcome, ok, err,
}
use blipmq.Wire.Buf.{Bytes}

-- At the start of a character, or with `left + 1` more bytes to come, the next in `[lo, hi]`.
pub data State : Type 0 where
  start bad : State
  inside : ℕ → ℕ → ℕ → State

first : ℕ → State
first b =
    if ltb b 0x80
    then start
    else if ltb b 0xc2
    then bad
    else if ltb b 0xe0
    then inside 0x80 0xbf 0
    else if b == 0xe0
    then inside 0xa0 0xbf 1
    else if b == 0xed
    then inside 0x80 0x9f 1
    else if ltb b 0xf0
    then inside 0x80 0xbf 1
    else if b == 0xf0
    then inside 0x90 0xbf 2
    else if ltb b 0xf4
    then inside 0x80 0xbf 2
    else if b == 0xf4
    then inside 0x80 0x8f 2
    else bad

next : ℕ → State
next zero = start
next (suc left) = inside 0x80 0xbf left

read : State → ℕ → State
unfolding first next
read start b = first b
read bad b = bad
read (inside lo hi left) b = if leb lo b && leb b hi then next left else bad

run : State → Bytes → State
unfolding read
run s [] = s
run s (b ∷ bs) = run (read s b) bs

at_start : State → Bool
at_start start = true
at_start bad = false
at_start (inside lo hi left) = false

-- `std::str::from_utf8(&bytes).is_ok()`
unfoldable pub is_utf8 : Bytes → Bool
unfolding run at_start
is_utf8 bs = at_start (run start bs)

-- `String::from_utf8(bytes)` with its error replaced by `e`.
unfoldable pub from_utf8 : {E : Type 0} → E → Bytes → Outcome E Bytes
from_utf8 e bs = if is_utf8 bs then ok bs else err e

-- A string of the program.
abbrev pub IsUtf8 : Bytes → Type 0
IsUtf8 bs = is_utf8 bs ≡ true

run-append : (s : State) (xs ys : Bytes) → run s (xs ++ ys) ≡ run (run s xs) ys
unfolding run
run-append s [] ys = refl
run-append s (x ∷ xs) ys = run-append (read s x) xs ys

at_start-eq : (s : State) → at_start s ≡ true → s ≡ start
unfolding at_start
at_start-eq start h = refl
at_start-eq bad h = cc
at_start-eq (inside lo hi left) h = cc

-- Strings are closed under concatenation.
pub IsUtf8-append : (xs ys : Bytes) → IsUtf8 xs → IsUtf8 ys → IsUtf8 (xs ++ ys)
unfolding is_utf8
IsUtf8-append xs ys hx hy = rw (run-append start xs ys, at_start-eq (run start xs) hx) hy

pub from_utf8-eq : {E : Type 0} (e : E) (bs : Bytes) → IsUtf8 bs → from_utf8 e bs ≡ ok bs
unfolding from_utf8
from_utf8-eq e bs h = rw h refl
