-- ===== src/Net/Payload/Flags.antt =====
-- The byte that carries a qos in its two low bits and two flags, as PUBLISH and SUBSCRIBE write it.
use blipmq.Prelude.{
  ℕ, ◌^◌, ◌<◌, ◌≡◌, refl, arith, ltb, ◌==◌, not, Bool, true, false, ◌&&◌, bit_and, bit_or,
  if◌then◌else◌, holds_below, holds_below_sound,
}

abbrev pub flag_byte : ℕ → Bool → Bool → ℕ
flag_byte qos high low =
    let q = bit_and qos 0x03 in
    let q' = if high then bit_or q 0x80 else q in if low then bit_or q' 0x40 else q'

same : Bool → Bool → Bool
same true b = b
same false b = not b

flags_test : Bool → Bool → ℕ → Bool
flags_test high low qos =
    let v = flag_byte qos high low in
    ltb v 256
    && (same high (not (bit_and v 0x80 == 0))
        && (same low (not (bit_and v 0x40 == 0)) && bit_and v 0x03 == bit_and qos 0x03))

flags_table : (high low : Bool) → holds_below (flags_test high low) 256 ≡ true
unfolding holds_below flags_test same
flags_table true true = refl
flags_table true false = refl
flags_table false true = refl
flags_table false false = refl

abbrev pub ReadsBack : ℕ → Bool → Bool → ℕ → Type 0
ReadsBack qos high low v =
    (v < 2 ^ 8)
    × (not (bit_and v 0x80 == 0) ≡ high)
    × (not (bit_and v 0x40 == 0) ≡ low)
    × (bit_and v 0x03 ≡ bit_and qos 0x03)

-- The flags and the qos survive in the byte.
pub flag_byte-ReadsBack :
    (high low : Bool) (qos : ℕ) → qos < 2 ^ 8 → ReadsBack qos high low (flag_byte qos high low)
unfolding flags_test same
flag_byte-ReadsBack high low qos h =
    ground (arith, holds_below_sound (flags_test high low) 256 (flags_table high low) qos h)
