-- ===== src/Core/Checkpoint/RoundTrip.antt =====
-- A checkpoint is read back as it was written.
use blipmq.Prelude.{
  ℕ, ◌-◌, ◌^◌, ◌<◌, ◌≤◌, ◌≡◌, refl, ap, sym, ◌∙◌, arith, false, List, [], ◌∷◌, ◌++◌, All, length,
  take-append, drop-append, length-append, append-nil, append_assoc, ok,
}
use blipmq.Wire.Buf.{Bytes, Buf}
use blipmq.Wire.Crc32.{Crc32}
use blipmq.Wire.Cursor.{get_uint-put, copy_to_bytes-append}
use blipmq.Wire.Utf8.{IsUtf8, from_utf8-eq}
use blipmq.Core.LogError.{LogError, corruption, text, u16_or-ok}
use blipmq.Core.Subject.{bytes_eq}
use blipmq.Core.Checkpoint.{
  Cursor, CheckpointSnapshot, checkpoint_magic, checkpoint_version, same_key, insert_cursor, u32_or,
  put_cursors, encode, read_cursor, read_cursors, read_body, decode,
}

-- The strings are UTF-8 and fit their length fields, and the id is a `u64`.
abbrev pub CursorFits : Cursor → Type 0
CursorFits c =
    (length c.client_id < 2 ^ 16)
    × IsUtf8 c.client_id
    × (length c.topic < 2 ^ 16)
    × IsUtf8 c.topic
    × (c.wal_id < 2 ^ 64)

-- No key stands twice, as in a `HashMap`.
abbrev pub Distinct : List Cursor → Type 0
Distinct [] = Unit
Distinct (c ∷ cs) = All (λ (d : Cursor). same_key d c ≡ false) cs × Distinct cs

abbrev pub Fits : CheckpointSnapshot → Type 0
Fits s =
    (s.snapshot_id < 2 ^ 64)
    × (length s.cursors < 2 ^ 32)
    × All CursorFits s.cursors
    × Distinct s.cursors

abbrev cursors_bytes : ⦃b : Buf⦄ → List Cursor → Bytes
cursors_bytes [] = []
cursors_bytes ⦃b⦄ (c ∷ cs) =
    b.put 2 (length c.client_id)
    ++ (c.client_id
        ++ (b.put 2 (length c.topic) ++ (c.topic ++ (b.put 8 c.wal_id ++ cursors_bytes cs))))

put_cursors-eq :
    ⦃b : Buf⦄ (cs : List Cursor) → All CursorFits cs → put_cursors cs ≡ ok (cursors_bytes cs)
unfolding put_cursors
put_cursors-eq [] h = refl
put_cursors-eq (c ∷ cs) h =
    rw (u16_or-ok _ (length c.client_id) h.0.0)
      (rw (u16_or-ok _ (length c.topic) h.0.2) (rw (put_cursors-eq cs h.1) refl))

read_cursor-cursors_bytes :
    ⦃b : Buf⦄ (c : Cursor) (cs : List Cursor)
    → CursorFits c
    → read_cursor (cursors_bytes (c ∷ cs)) ≡ ok (c, cursors_bytes cs)
unfolding read_cursor
read_cursor-cursors_bytes ⦃b⦄ c cs h =
    let E : Type 0 = LogError in
    let n : ℕ = length c.client_id in
    let k : ℕ = length c.topic in
    let rest : Bytes = cursors_bytes cs in
    let id : Bytes = b.put 8 c.wal_id ++ rest in
    let tail : Bytes = b.put 2 k ++ (c.topic ++ id) in
    ground (
      arith,
      b.length-put 2 n,
      b.length-put 2 k,
      b.length-put 8 c.wal_id,
      length-append (b.put 8 c.wal_id) rest,
      length-append (b.put 2 n) (c.client_id ++ tail),
      length-append c.client_id tail,
      length-append (b.put 2 k) (c.topic ++ id),
      length-append c.topic id,
      get_uint-put {E = E} 2 n (c.client_id ++ tail),
      get_uint-put {E = E} 2 k (c.topic ++ id),
      get_uint-put {E = E} 8 c.wal_id rest,
      copy_to_bytes-append {E = E} n c.client_id tail refl,
      copy_to_bytes-append {E = E} k c.topic id refl,
      from_utf8-eq (corruption (text "cid not utf8")) c.client_id,
      from_utf8-eq (corruption (text "topic not utf8")) c.topic,
    )

abbrev pub New : List Cursor → Cursor → Type 0
New acc c = All (λ (a : Cursor). same_key c a ≡ false) acc

insert_cursor-New :
    (c : Cursor) (acc : List Cursor) → New acc c → insert_cursor c acc ≡ acc ++ (c ∷ [])
unfolding insert_cursor
insert_cursor-New c [] h = refl
insert_cursor-New c (a ∷ acc) h =
    rw h.0 (ap (λ (r : List Cursor). a ∷ r) (insert_cursor-New c acc h.1))

New-snoc :
    (acc : List Cursor) (c d : Cursor) → New acc d → same_key d c ≡ false → New (acc ++ (c ∷ [])) d
New-snoc [] c d h e = (e, tt)
New-snoc (a ∷ acc) c d h e = (h.0, New-snoc acc c d h.1 e)

pub All-New-snoc :
    (acc : List Cursor) (c : Cursor) (cs : List Cursor)
    → All (New acc) cs
    → All (λ (d : Cursor). same_key d c ≡ false) cs
    → All (New (acc ++ (c ∷ []))) cs
All-New-snoc acc c [] h e = tt
All-New-snoc acc c (d ∷ ds) h e = (New-snoc acc c d h.0 e.0, All-New-snoc acc c ds h.1 e.1)

read_cursors-cursors_bytes :
    ⦃b : Buf⦄ (cs acc : List Cursor)
    → All CursorFits cs
    → Distinct cs
    → All (New acc) cs
    → read_cursors (length cs) (cursors_bytes cs) acc ≡ ok (acc ++ cs)
unfolding read_cursors
read_cursors-cursors_bytes [] acc h d n = ap ok (sym (append-nil acc))
read_cursors-cursors_bytes (c ∷ cs) acc h d n =
    rw (read_cursor-cursors_bytes c cs h.0, insert_cursor-New c acc n.0)
      (read_cursors-cursors_bytes cs (acc ++ (c ∷ [])) h.1 d.1 (All-New-snoc acc c cs n.1 d.0)
        ∙ ap ok (append_assoc acc (c ∷ []) cs))

abbrev body_bytes : ⦃b : Buf⦄ → CheckpointSnapshot → Bytes
body_bytes ⦃b⦄ s =
    checkpoint_magic
    ++ (b.put 4 checkpoint_version
        ++ (b.put 8 s.snapshot_id ++ (b.put 4 (length s.cursors) ++ cursors_bytes s.cursors)))

encode-eq :
    ⦃b : Buf⦄ ⦃h : Crc32⦄ (s : CheckpointSnapshot)
    → Fits s
    → encode s ≡ ok (body_bytes s ++ b.put 4 (h.checksum (body_bytes s)))
unfolding encode u32_or
encode-eq ⦃b⦄ ⦃h⦄ s f = ground (arith, put_cursors-eq s.cursors f.2)

All-New-nil : (cs : List Cursor) → All (New []) cs
All-New-nil [] = tt
All-New-nil (c ∷ cs) = (tt, All-New-nil cs)

read_body-body_bytes : ⦃b : Buf⦄ (s : CheckpointSnapshot) → Fits s → read_body (body_bytes s) ≡ ok s
unfolding read_body bytes_eq
read_body-body_bytes ⦃b⦄ s f =
    let E : Type 0 = LogError in
    let n : ℕ = length s.cursors in
    let entries : Bytes = cursors_bytes s.cursors in
    let ids : Bytes = b.put 8 s.snapshot_id ++ (b.put 4 n ++ entries) in
    ground (
      arith,
      copy_to_bytes-append {E = E} 8 checkpoint_magic (b.put 4 1 ++ ids) refl,
      get_uint-put {E = E} 4 1 ids,
      get_uint-put {E = E} 8 s.snapshot_id (b.put 4 n ++ entries),
      get_uint-put {E = E} 4 n entries,
      read_cursors-cursors_bytes s.cursors [] f.2 f.3 (All-New-nil s.cursors),
    )

decode-body :
    ⦃b : Buf⦄ ⦃h : Crc32⦄ (body : Bytes)
    → 24 ≤ length body
    → decode (body ++ b.put 4 (h.checksum body)) ≡ read_body body
unfolding decode
decode-body ⦃b⦄ ⦃h⦄ body long =
    let crc : Bytes = b.put 4 (h.checksum body) in
    let bytes : Bytes = body ++ crc in
    ground (
      arith,
      length-append body crc,
      b.length-put 4 (h.checksum body),
      take-append body crc (length bytes - 4),
      drop-append body crc (length bytes - 4),
      append-nil crc,
      h.checksum_lt body,
      get_uint-put {E = LogError} 4 (h.checksum body) [],
    )

-- A snapshot whose ids, counts and strings fit their fields, and whose keys are distinct and UTF-8,
-- is written, and is read back with the same entries in the same order.
pub checkpoint_decode-encode :
    ⦃b : Buf⦄ ⦃h : Crc32⦄ (s : CheckpointSnapshot)
    → Fits s
    → (bytes : Bytes) × (encode s ≡ ok bytes) × (decode bytes ≡ ok s)
checkpoint_decode-encode ⦃b⦄ ⦃h⦄ s f = (
  body_bytes s ++ b.put 4 (h.checksum (body_bytes s)),
  encode-eq s f,
  decode-body (body_bytes s) long ∙ read_body-body_bytes s f,
)
  where
    long : 24 ≤ length (body_bytes s)
    long =
        let n : ℕ = length s.cursors in
        let counted : Bytes = b.put 4 n ++ cursors_bytes s.cursors in
        omega (
          arith,
          length-append (b.put 4 checkpoint_version) (b.put 8 s.snapshot_id ++ counted),
          length-append (b.put 8 s.snapshot_id) counted,
          length-append (b.put 4 n) (cursors_bytes s.cursors),
          b.length-put 4 checkpoint_version,
          b.length-put 8 s.snapshot_id,
          b.length-put 4 n,
        )
