-- ===== src/Core/Subject/Match.antt =====
-- `SubjectPattern::matches` decides a relation between patterns and token lists that is stated
-- without the code, and never indexes out of range.
use blipmq.Prelude.{
  ℕ, suc, ◌<◌, ◌≡◌, ◌≢◌, ◌↔◌, ◌⊎◌, inl, inr, refl, arith, Bool, true, false, Option, some, List, [],
  ◌∷◌, length, leb, ◌==◌, if◌then◌else◌, Bool-cases,
}
use blipmq.Wire.Buf.{Bytes}
use blipmq.Core.Subject.{
  PatternSegment, literal, wildcard, SubjectPattern, split, match_segment, match_segments, matches,
}
use blipmq.Core.Subject.Split.{bytes_eq_iff}

-- A literal stands for itself, and `*` for any token but the empty one.
abbrev pub MatchesToken : PatternSegment → Bytes → Type 0
MatchesToken (literal l) tok = l ≡ tok
MatchesToken wildcard tok = tok ≢ []

-- The segments match the tokens one by one. With the tail wildcard at least one token is left.
pub data Matches : List PatternSegment → Bool → List Bytes → Type 0 where
  done : Matches [] false []
  rest : (tok : Bytes) (toks : List Bytes) → Matches [] true (tok ∷ toks)
  next :
      {segs : List PatternSegment} {has_tail : Bool} {toks : List Bytes} (seg : PatternSegment)
      (tok : Bytes)
      → MatchesToken seg tok
      → Matches segs has_tail toks
      → Matches (seg ∷ segs) has_tail (tok ∷ toks)

-- The test returns, and tells whether `P` holds.
abbrev pub Decides : Option Bool → Type 0 → Type 0
Decides test P = ((test ≡ some true) × P) ⊎ ((test ≡ some false) × (¬ P))

match_segment_iff :
    (seg : PatternSegment) (tok : Bytes) → (match_segment seg tok ≡ true) ↔ MatchesToken seg tok
unfolding match_segment
match_segment_iff (literal l) tok = bytes_eq_iff l tok
match_segment_iff wildcard [] = ground arith
match_segment_iff wildcard (c ∷ cs) = ground arith

-- How many tokens there must be.
abbrev Enough : Bool → ℕ → ℕ → Type 0
Enough true segs toks = segs < toks
Enough false segs toks = toks ≡ segs

Matches-Enough :
    {segs : List PatternSegment} {has_tail : Bool} {toks : List Bytes}
    → Matches segs has_tail toks
    → Enough has_tail (length segs) (length toks)
Matches-Enough done = refl
Matches-Enough (rest tok toks) = omega arith
Matches-Enough (next {has_tail = true} seg tok h m) = omega (arith, Matches-Enough m)
Matches-Enough (next {has_tail = false} seg tok h m) = omega (arith, Matches-Enough m)

Enough-suc : (has_tail : Bool) (m n : ℕ) → Enough has_tail (suc m) (suc n) → Enough has_tail m n
Enough-suc true m n h = omega arith
Enough-suc false m n h = omega arith

Matches-next :
    {segs : List PatternSegment} {has_tail : Bool} {toks : List Bytes} {seg : PatternSegment}
    {tok : Bytes}
    → Matches (seg ∷ segs) has_tail (tok ∷ toks)
    → MatchesToken seg tok × Matches segs has_tail toks
Matches-next (next seg tok h m) = (h, m)

Decides-next :
    (seg : PatternSegment) (tok : Bytes) (segs : List PatternSegment) (has_tail : Bool)
    (toks : List Bytes)
    → Decides (match_segments segs toks) (Matches segs has_tail toks)
    → Decides
        (match_segments (seg ∷ segs) (tok ∷ toks))
        (Matches (seg ∷ segs) has_tail (tok ∷ toks))
unfolding match_segments
Decides-next seg tok segs has_tail toks d = elim (Bool-cases (match_segment seg tok)) [
  | inl hit ↦ rw hit (elim d [
    | inl (e, m) ↦ inl (e, next seg tok ((match_segment_iff seg tok).0 hit) m)
    | inr (e, n) ↦ inr (e, λ m. n (Matches-next m).1)
  ])
  | inr miss ↦
      rw miss (inr (refl, λ m. cc (miss, (match_segment_iff seg tok).1 (Matches-next m).0)))
]

match_segments-Decides :
    (segs : List PatternSegment) (has_tail : Bool) (toks : List Bytes)
    → Enough has_tail (length segs) (length toks)
    → Decides (match_segments segs toks) (Matches segs has_tail toks)
match_segments-Decides [] true [] h = absurd (omega arith)
match_segments-Decides [] true (tok ∷ toks) h = unfold match_segments in inl (refl, rest tok toks)
match_segments-Decides [] false [] h = unfold match_segments in inl (refl, done)
match_segments-Decides [] false (tok ∷ toks) h = absurd (omega arith)
match_segments-Decides (seg ∷ segs) true [] h = absurd (omega arith)
match_segments-Decides (seg ∷ segs) false [] h = absurd (omega arith)
match_segments-Decides (seg ∷ segs) has_tail (tok ∷ toks) h =
    Decides-next seg tok segs has_tail toks
      (match_segments-Decides segs has_tail toks (Enough-suc has_tail _ _ h))

-- The body of `matches`, with the length test of each kind of pattern.
tokens-Decides :
    (has_tail : Bool) (segs : List PatternSegment) (toks : List Bytes)
    → Decides
        (if has_tail
          then (if leb (length toks) (length segs) then some false else match_segments segs toks)
          else if length toks == length segs
          then match_segments segs toks
          else some false)
        (Matches segs has_tail toks)
tokens-Decides true segs toks = elim (Bool-cases (leb (length toks) (length segs))) [
  | inl few ↦ rw few (inr (refl, λ m. ground (arith, Matches-Enough m)))
  | inr many ↦ rw many (match_segments-Decides segs true toks (ground arith))
]
tokens-Decides false segs toks = elim (Bool-cases (length toks == length segs)) [
  | inl as_many ↦ rw as_many (match_segments-Decides segs false toks (ground arith))
  | inr differ ↦ rw differ (inr (refl, λ m. ground (arith, Matches-Enough m)))
]

-- `matches` returns on every pattern and subject, and is true exactly when the tokens of the
-- subject are related to the pattern.
pub matches-Decides :
    (p : SubjectPattern) (subject : Bytes)
    → Decides (matches p subject) (Matches p.segments p.has_tail (split subject))
unfolding matches
matches-Decides p subject = tokens-Decides p.has_tail p.segments (split subject)
