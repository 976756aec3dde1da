-- ===== src/Core/Broker/Ack/Keys.antt =====
-- The keys of the cursors of core/src/lib.rs, which `ack` keeps apart.
use blipmq.Prelude.{
  ◌≡◌, refl, ap, arith, true, false, ltb, Bool-cases, inl, inr, All, List, [], ◌∷◌, ◌++◌,
}
use blipmq.Core.Subject.Split.{bytes_eq_iff}
use blipmq.Core.Checkpoint.{Cursor, same_key}
use blipmq.Core.Checkpoint.RoundTrip.{Distinct, New}
use blipmq.Core.Broker.Ack.{raise_cursor}

All-raise_cursor :
    (P : Cursor → Type 0) (c : Cursor) (cs : List Cursor)
    → P c
    → All P cs
    → All P (raise_cursor c cs)
unfolding raise_cursor
All-raise_cursor P c [] p h = (p, tt)
All-raise_cursor P c (d ∷ ds) p h = elim (Bool-cases (same_key c d)) [
  | inl same ↦ elim (Bool-cases (ltb d.wal_id c.wal_id)) [
    | inl more ↦ rw (same, more) (p, h.1)
    | inr less ↦ rw (same, less) h
  ]
  | inr other ↦ rw other (h.0, All-raise_cursor P c ds p h.1)
]

same_key_trans :
    (c d : Cursor) (es : List Cursor)
    → same_key c d ≡ true
    → All (λ (e : Cursor). same_key e d ≡ false) es
    → All (λ (e : Cursor). same_key e c ≡ false) es
unfolding same_key
same_key_trans c d [] k h = tt
same_key_trans c d (e ∷ es) k h = ground (
  arith,
  bytes_eq_iff c.client_id d.client_id,
  bytes_eq_iff c.topic d.topic,
  bytes_eq_iff e.client_id d.client_id,
  bytes_eq_iff e.topic d.topic,
  bytes_eq_iff e.client_id c.client_id,
  bytes_eq_iff e.topic c.topic,
  same_key_trans c d es k h.1,
)

pub raise_cursor-Distinct :
    (c : Cursor) (cs : List Cursor) → Distinct cs → Distinct (raise_cursor c cs)
unfolding raise_cursor
raise_cursor-Distinct c [] h = (tt, tt)
raise_cursor-Distinct c (d ∷ ds) h = elim (Bool-cases (same_key c d)) [
  | inl same ↦ elim (Bool-cases (ltb d.wal_id c.wal_id)) [
    | inl more ↦ rw (same, more) (same_key_trans c d ds same h.0, h.1)
    | inr less ↦ rw (same, less) h
  ]
  | inr other ↦ rw other (
    All-raise_cursor (λ (e : Cursor). same_key e d ≡ false) c ds other h.0,
    raise_cursor-Distinct c ds h.1,
  )
]

pub raise_cursor-New :
    (c : Cursor) (cs : List Cursor) → New cs c → raise_cursor c cs ≡ cs ++ (c ∷ [])
unfolding raise_cursor
raise_cursor-New c [] h = refl
raise_cursor-New c (d ∷ ds) h =
    rw h.0 (ap (λ (es : List Cursor). d ∷ es) (raise_cursor-New c ds h.1))
