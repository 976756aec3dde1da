-- ===== src/Tests/Records.antt =====
-- Runs and instances for the records and the subject patterns of core/src/lib.rs.
use blipmq.Prelude.{◌≡◌, ◌⊎◌, ◌↔◌, refl, arith, true, false, some, [], ◌∷◌, ok, err}
use blipmq.Wire.Buf.{Bytes}
use blipmq.Wire.BigEndian.{big_endian}
use blipmq.Wire.Utf8.{IsUtf8, is_utf8}
use blipmq.Core.WalEntry
use blipmq.Core.WalEntry.{WalEntry, WalAckRecord, ack}
use blipmq.Core.WalEntry.RoundTrip.{wal_entry_decode-encode}
use blipmq.Core.Subject
use blipmq.Core.Subject.{SubjectPattern, PatternParseError, literal, wildcard}
use blipmq.Core.Subject.Match.{Decides, Matches, matches-Decides}
use blipmq.Core.Subject.Parse.{WellFormed, Parses, parse-Decides}
use blipmq.Core.Subject.Exact.{exact-parse}

abbrev name : Bytes
name = b'a' ∷ b'.' ∷ b'b' ∷ []

name-IsUtf8 : IsUtf8 name
unfolding is_utf8
name-IsUtf8 = refl

abbrev an_ack : WalEntry
an_ack = ack (record { client_id = name; topic = name; acked_wal_id = 77 })

wal_entry_decode-encode_example :
    (bytes : Bytes) × (WalEntry.encode an_ack ≡ ok bytes) × (WalEntry.decode bytes ≡ ok an_ack)
wal_entry_decode-encode_example =
    wal_entry_decode-encode an_ack (omega arith, name-IsUtf8, omega arith, name-IsUtf8, omega arith)

abbrev an_exact : SubjectPattern
an_exact = record {
  raw = name;
  segments = literal (b'a' ∷ []) ∷ literal (b'b' ∷ []) ∷ [];
  has_tail = false;
}

parse-name : Subject.parse name ≡ ok an_exact
unfolding Subject.parse Subject.parse_tokens Subject.split Subject.bytes_eq
parse-name = refl

exact_name : Subject.is_exact an_exact ≡ true
unfolding Subject.is_exact Subject.all_literal
exact_name = refl

exact-parse_example :
    (Subject.exact_subject an_exact ≡ name)
    × ((Subject.matches an_exact (b'x' ∷ []) ≡ some true) ↔ ◌≡◌ {A = Bytes} (b'x' ∷ []) name)
exact-parse_example = exact-parse name (b'x' ∷ []) an_exact parse-name exact_name

parse-Decides_example :
    (WellFormed (Subject.split name) × Parses name (Subject.parse name))
    ⊎ ((¬ WellFormed (Subject.split name))
        × ((e : PatternParseError) × (Subject.parse name ≡ err e)))
parse-Decides_example = parse-Decides name

-- `a.*` against `a.b`, and `a.>` against `a`.
abbrev any_below : SubjectPattern
any_below = record { raw = []; segments = literal (b'a' ∷ []) ∷ wildcard ∷ []; has_tail = false }

matches-Decides_example :
    Decides
      (Subject.matches any_below name)
      (Matches (literal (b'a' ∷ []) ∷ wildcard ∷ []) false (Subject.split name))
matches-Decides_example = matches-Decides any_below name

matches_star : Subject.matches any_below name ≡ some true
unfolding Subject.matches Subject.match_segments Subject.split Subject.bytes_eq
matches_star = refl

matches_tail_empty :
    Subject.matches
      (record { raw = []; segments = literal (b'a' ∷ []) ∷ []; has_tail = true })
      (b'a' ∷ [])
    ≡ some false
unfolding Subject.matches Subject.match_segments Subject.split Subject.bytes_eq
matches_tail_empty = refl
