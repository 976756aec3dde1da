-- ===== src/Wal/Record/Layout.antt =====
-- A record of the log of wal/src/lib.rs as the writer laid it out, and what a read makes of it.
use blipmq.Prelude.{
  ℕ, zero, suc, ◌+◌, ◌-◌, ◌^◌, ◌<◌, ◌≡◌, inl, inr, refl, ap, sym, ◌∙◌, arith, ltb, [], ◌∷◌, ◌++◌,
  length, take, drop, take-append, drop-append, length-append, length-take, append_assoc, none,
  some, Outcome, ok, Bool-cases,
}
use blipmq.Wire.Buf.{Bytes}
use blipmq.Wire.Crc32.{Crc32}
use blipmq.Wire.Endian.{le_bytes, length-le_bytes, from_le_bytes-le_bytes}
use blipmq.Core.LogError.{LogError}
use blipmq.Wal.Record.{WalWriteRequest, WalScan, build_request, read_next_record_with_offset}

-- The request is one that `build_request` made, for a `u64` id.
abbrev pub Built : ⦃h : Crc32⦄ → WalWriteRequest → Type 0
Built r = (r.id < 2 ^ 64) × ((build_request r.id r.payload r.durable_ack).1 ≡ ok (r.id, r))

abbrev pub framing : WalWriteRequest → Bytes
framing r = le_bytes 8 r.id ++ le_bytes 4 (length r.payload)

abbrev pub header_bytes : ⦃h : Crc32⦄ → WalWriteRequest → Bytes
header_bytes ⦃h⦄ r = framing r ++ le_bytes 4 (h.checksum (framing r ++ r.payload))

abbrev header_of : Outcome LogError (ℕ × WalWriteRequest) → Bytes
header_of (ok p) = p.1.header
header_of _ = []

pub Built-header :
    ⦃h : Crc32⦄ (r : WalWriteRequest)
    → Built r
    → (length r.payload < 2 ^ 32) × (r.header ≡ header_bytes r)
unfolding build_request
Built-header r b = elim (Bool-cases (ltb (length r.payload) (2 ^ 32))) [
  | inl fits ↦ let e = rw fits at b.1 in (ground (arith), sym (ap header_of e))
  | inr long ↦ absurd (ground (arith, b.1))
]

-- The fields of a header, by their position.
record Fields (i l c tail : Bytes) : Type 0 where
  id_field : take 8 (((i ++ l) ++ c) ++ tail) ≡ i
  len_field : take 4 (drop 8 (((i ++ l) ++ c) ++ tail)) ≡ l
  crc_field : take 4 (drop 12 (((i ++ l) ++ c) ++ tail)) ≡ c
  framing_part : take 12 (((i ++ l) ++ c) ++ tail) ≡ i ++ l
  behind : drop 16 (((i ++ l) ++ c) ++ tail) ≡ tail
  long : length (((i ++ l) ++ c) ++ tail) ≡ 16 + length tail

fields : (i l c tail : Bytes) → length i ≡ 8 → length l ≡ 4 → length c ≡ 4 → Fields i l c tail
fields i l c tail hi hl hc =
    let a : ((i ++ l) ++ c) ++ tail ≡ (i ++ l) ++ (c ++ tail) = append_assoc (i ++ l) c tail in
    let b : (i ++ l) ++ (c ++ tail) ≡ i ++ (l ++ (c ++ tail)) = append_assoc i l (c ++ tail) in
    let n : length (i ++ l) ≡ 12 = omega (arith, length-append i l) in
    let m : length ((i ++ l) ++ c) ≡ 16 = omega (arith, length-append (i ++ l) c) in
    record {
      id_field = ap (take 8) (a ∙ b) ∙ take-append i (l ++ (c ++ tail)) 8 hi;
      len_field =
          ap (λ (x : Bytes). take 4 (drop 8 x)) (a ∙ b)
          ∙ ap (take 4) (drop-append i (l ++ (c ++ tail)) 8 hi)
          ∙ take-append l (c ++ tail) 4 hl;
      crc_field =
          ap (λ (x : Bytes). take 4 (drop 12 x)) a
          ∙ ap (take 4) (drop-append (i ++ l) (c ++ tail) 12 n)
          ∙ take-append c tail 4 hc;
      framing_part = ap (take 12) a ∙ take-append (i ++ l) (c ++ tail) 12 n;
      behind = drop-append ((i ++ l) ++ c) tail 16 m;
      long = omega (arith, length-append ((i ++ l) ++ c) tail);
    }

header-Fields :
    ⦃h : Crc32⦄ (r : WalWriteRequest) (tail : Bytes)
    → Fields
        (le_bytes 8 r.id)
        (le_bytes 4 (length r.payload))
        (le_bytes 4 (h.checksum (framing r ++ r.payload)))
        tail
header-Fields ⦃h⦄ r tail =
    fields (le_bytes 8 r.id) (le_bytes 4 (length r.payload))
      (le_bytes 4 (h.checksum (framing r ++ r.payload))) tail (length-le_bytes 8 r.id)
      (length-le_bytes 4 (length r.payload))
      (length-le_bytes 4 (h.checksum (framing r ++ r.payload)))

abbrev pub scanned : WalWriteRequest → ℕ → Bytes → WalScan
scanned r offset rest = record {
  id = r.id;
  payload = r.payload;
  record_offset = offset;
  total_len = 16 + length r.payload;
  rest = rest;
}

read-header :
    ⦃h : Crc32⦄ (r : WalWriteRequest) (rest : Bytes) (offset : ℕ)
    → r.id < 2 ^ 64
    → length r.payload < 2 ^ 32
    → read_next_record_with_offset (header_bytes r ++ (r.payload ++ rest)) offset
      ≡ ok (some (scanned r offset rest))
unfolding read_next_record_with_offset
read-header ⦃h⦄ r rest offset hid hlen =
    let f = header-Fields r (r.payload ++ rest) in
    let n : ℕ = length r.payload in
    let crc : ℕ = h.checksum (framing r ++ r.payload) in
    rw
      (
        f.id_field,
        f.len_field,
        f.crc_field,
        f.framing_part,
        f.behind,
        f.long,
        from_le_bytes-le_bytes 8 r.id hid,
        from_le_bytes-le_bytes 4 n hlen,
        from_le_bytes-le_bytes 4 crc (h.checksum_lt (framing r ++ r.payload)),
        take-append r.payload rest n refl,
        drop-append r.payload rest n refl,
        length-append r.payload rest,
      )
      (ground arith)

-- A record that was cut off, and what the scan makes of it.
abbrev pub request_bytes : WalWriteRequest → Bytes
request_bytes r = r.header ++ r.payload

take_more : (xs ys : Bytes) (n j : ℕ) → length xs ≡ n → take (n + j) (xs ++ ys) ≡ xs ++ take j ys
take_more [] ys n j h = let e : n + j ≡ j = omega arith in rw e refl
take_more (x ∷ xs) ys zero j h = absurd (omega arith)
take_more (x ∷ xs) ys (suc n) j h =
    let e : suc n + j ≡ suc (n + j) = omega arith in
    rw e (ap (λ (t : Bytes). x ∷ t) (take_more xs ys n j (omega arith)))

read_short :
    ⦃h : Crc32⦄ (file : Bytes) (offset : ℕ)
    → length file < 16
    → read_next_record_with_offset file offset ≡ ok none
unfolding read_next_record_with_offset
read_short file offset short = ground arith

read_cut :
    ⦃h : Crc32⦄ (r : WalWriteRequest) (part : Bytes) (offset : ℕ)
    → length r.payload < 2 ^ 32
    → length part < length r.payload
    → read_next_record_with_offset (header_bytes r ++ part) offset ≡ ok none
unfolding read_next_record_with_offset
read_cut ⦃h⦄ r part offset hlen short =
    let f = header-Fields r part in
    rw (f.len_field, f.behind, f.long, from_le_bytes-le_bytes 4 (length r.payload) hlen)
      (ground arith)

pub length-header_bytes : ⦃h : Crc32⦄ (r : WalWriteRequest) → length (header_bytes r) ≡ 16
length-header_bytes ⦃h⦄ r =
    omega (arith, (header-Fields r []).long, length-append (header_bytes r) [])

pub read-torn :
    ⦃h : Crc32⦄ (r : WalWriteRequest) (k offset : ℕ)
    → Built r
    → k < length (request_bytes r)
    → read_next_record_with_offset (take k (request_bytes r)) offset ≡ ok none
read-torn ⦃h⦄ r k offset b cut =
    let (hlen, e) = Built-header r b in
    let n = length-header_bytes r in
    let n' : length r.header ≡ 16 = ap length e ∙ n in
    elim (Bool-cases (ltb k 16)) [
      | inl short ↦
          read_short (take k (request_bytes r)) offset
            (ground (arith, length-take k (request_bytes r)))
      | inr long ↦
          let c : k ≡ 16 + (k - 16) = ground arith in
          let part : Bytes = take (k - 16) r.payload in
          let t : take k (request_bytes r) ≡ header_bytes r ++ part =
            ap (λ (j : ℕ). take j (request_bytes r)) c
            ∙ take_more r.header r.payload 16 (k - 16) n'
            ∙ ap (λ (x : Bytes). x ++ part) e in
          rw t (
            read_cut r part offset hlen
              (omega (arith, length-take (k - 16) r.payload, length-append r.header r.payload)))
    ]

pub read-request :
    ⦃h : Crc32⦄ (r : WalWriteRequest) (rest : Bytes) (offset : ℕ)
    → Built r
    → read_next_record_with_offset (r.header ++ (r.payload ++ rest)) offset
      ≡ ok (some (scanned r offset rest))
read-request r rest offset b =
    let (hlen, e) = Built-header r b in
    ap (λ (x : Bytes). read_next_record_with_offset (x ++ (r.payload ++ rest)) offset) e
    ∙ read-header r rest offset b.0 hlen
