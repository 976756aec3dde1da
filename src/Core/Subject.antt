-- ===== src/Core/Subject.antt =====
-- core/src/lib.rs, `SubjectPattern`: subjects and patterns are strings, as their bytes, whose
-- tokens are separated by dots. `none` stands for the panic of an index out of range.
pub mod Split
pub mod Match
pub mod Parse
pub mod Exact
use blipmq.Prelude.{
  ℕ, zero, suc, ◌+◌, ◌-◌, ◌≡◌, Bool, true, false, not, ◌&&◌, ◌||◌, Option, none, some, List, [],
  ◌∷◌, ◌++◌, length, leb, ◌==◌, if◌then◌else◌, Outcome, ok, err, ◌>>=◌,
}
use blipmq.Wire.Buf.{Bytes}

pub data PatternSegment : Type 0 where
  literal : Bytes → PatternSegment
  wildcard : PatternSegment

pub record SubjectPattern : Type 0 where
  pub raw : Bytes
  pub segments : List PatternSegment
  pub has_tail : Bool

pub data PatternParseError : Type 0 where
  empty : PatternParseError
  empty_token tail_not_last : Bytes → PatternParseError

-- Equality of strings.
unfoldable pub bytes_eq : Bytes → Bytes → Bool
bytes_eq [] [] = true
bytes_eq (x ∷ xs) (y ∷ ys) = x == y && bytes_eq xs ys
bytes_eq _ _ = false

abbrev pub star : Bytes
star = b'*' ∷ []

abbrev pub tail_mark : Bytes
tail_mark = b'>' ∷ []

-- `s.split('.')`: n dots make n + 1 tokens.
put_front : Bool → ℕ → List Bytes → List Bytes
put_front true c ts = [] ∷ ts
put_front false c [] = (c ∷ []) ∷ []
put_front false c (t ∷ ts) = (c ∷ t) ∷ ts

unfoldable pub split : Bytes → List Bytes
unfolding put_front
split [] = [] ∷ []
split (c ∷ cs) = put_front (c == b'.') c (split cs)

-- `parts.join(".")`
pub join : List Bytes → Bytes
join [] = []
join (t ∷ []) = t
join (t ∷ u ∷ ts) = t ++ (b'.' ∷ join (u ∷ ts))

-- One round of the loop of `parse`, on the token at index `i`; `none` is the tail wildcard.
parse_token : Bytes → ℕ → ℕ → Bytes → Outcome PatternParseError (Option PatternSegment)
parse_token s last i [] = err (empty_token s)
parse_token s last i (c ∷ cs) =
    if bytes_eq (c ∷ cs) tail_mark
    then (if i == last then ok none else err (tail_not_last s))
    else if bytes_eq (c ∷ cs) star
    then ok (some wildcard)
    else ok (some (literal (c ∷ cs)))

-- `segments.push(...)`, or `has_tail = true`.
push : List PatternSegment × Bool → Option PatternSegment → List PatternSegment × Bool
push (segments, has_tail) none = (segments, true)
push (segments, has_tail) (some seg) = (segments ++ (seg ∷ []), has_tail)

unfoldable pub parse_tokens :
    Bytes
    → ℕ
    → ℕ
    → List Bytes
    → List PatternSegment × Bool
    → Outcome PatternParseError (List PatternSegment × Bool)
unfolding parse_token push
parse_tokens s last i [] acc = ok acc
parse_tokens s last i (tok ∷ toks) acc = do
  seg ← parse_token s last i tok
  parse_tokens s last (i + 1) toks (push acc seg)

unfoldable pub parse : Bytes → Outcome PatternParseError SubjectPattern
parse [] = err empty
parse (c ∷ cs) = do
  let raw_tokens = split (c ∷ cs)
  (segments, has_tail) ← parse_tokens (c ∷ cs) (length raw_tokens - 1) 0 raw_tokens ([], false)
  ok (record { raw = c ∷ cs; segments = segments; has_tail = has_tail })

is_literal : PatternSegment → Bool
is_literal (literal l) = true
is_literal wildcard = false

unfoldable pub all_literal : List PatternSegment → Bool
unfolding is_literal
all_literal [] = true
all_literal (seg ∷ segs) = is_literal seg && all_literal segs

unfoldable pub is_exact : SubjectPattern → Bool
is_exact p = not p.has_tail && all_literal p.segments

match_segment : PatternSegment → Bytes → Bool
match_segment (literal l) tok = bytes_eq l tok
match_segment wildcard [] = false
match_segment wildcard (c ∷ cs) = true

-- The loop over the segments, with the tokens from index `i` on.
unfoldable pub match_segments : List PatternSegment → List Bytes → Option Bool
unfolding match_segment
match_segments [] toks = some true
match_segments (seg ∷ segs) [] = none
match_segments (seg ∷ segs) (tok ∷ toks) =
    let rest = match_segments segs toks in if match_segment seg tok then rest else some false

unfoldable pub matches : SubjectPattern → Bytes → Option Bool
matches p subject =
    let tokens = split subject in
    let fixed = length p.segments in
    if p.has_tail
    then (if leb (length tokens) fixed then some false else match_segments p.segments tokens)
    else if length tokens == fixed
    then match_segments p.segments tokens
    else some false

literals : List PatternSegment → List Bytes
literals [] = []
literals (literal l ∷ segs) = l ∷ literals segs
literals (wildcard ∷ segs) = literals segs

-- `exact_subject_from_pattern`
pub exact_subject : SubjectPattern → Bytes
unfolding literals
exact_subject p = join (literals p.segments)
