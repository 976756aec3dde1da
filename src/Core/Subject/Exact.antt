-- ===== src/Core/Subject/Exact.antt =====
-- A pattern without wildcards: `is_exact`, `exact_subject_from_pattern`, and what it matches.
use blipmq.Prelude.{
  ◌≡◌, ◌↔◌, inl, inr, refl, ap, ap₂, sym, ◌∙◌, arith, Bool, true, false, some, List, [], ◌∷◌, ok,
}
use blipmq.Wire.Buf.{Bytes}
use blipmq.Core.Subject.{
  PatternSegment, literal, wildcard, SubjectPattern, split, join, parse, is_literal, all_literal,
  is_exact, literals, exact_subject, matches,
}
use blipmq.Core.Subject.Split.{join-split}
use blipmq.Core.Subject.Match.{Matches, done, rest, next, matches-Decides}
use blipmq.Core.Subject.Parse.{spell, parse-Decides}

-- Without wildcards the literals are all that a pattern spells.
spell-literals :
    (segs : List PatternSegment) → all_literal segs ≡ true → spell segs false ≡ literals segs
unfolding all_literal is_literal literals
spell-literals [] h = refl
spell-literals (literal l ∷ segs) h = ap (λ (ts : List Bytes). l ∷ ts) (spell-literals segs h)
spell-literals (wildcard ∷ segs) h = cc

literals-of_Matches :
    {segs : List PatternSegment} {has_tail : Bool} {toks : List Bytes}
    → Matches segs has_tail toks
    → has_tail ≡ false
    → all_literal segs ≡ true
    → literals segs ≡ toks
unfolding all_literal is_literal literals
literals-of_Matches done t h = refl
literals-of_Matches (rest tok toks) t h = cc
literals-of_Matches (next (literal l) tok e m) t h =
    ap₂ (λ (x : Bytes) (xs : List Bytes). x ∷ xs) e (literals-of_Matches m t h)
literals-of_Matches (next wildcard tok e m) t h = cc

Matches-literals :
    (segs : List PatternSegment) (has_tail : Bool)
    → has_tail ≡ false
    → all_literal segs ≡ true
    → Matches segs has_tail (literals segs)
unfolding all_literal is_literal literals
Matches-literals segs true t h = cc
Matches-literals [] false t h = done
Matches-literals (literal l ∷ segs) false t h =
    next (literal l) l refl (Matches-literals segs false t h)
Matches-literals (wildcard ∷ segs) false t h = cc

is_exact-parts :
    (p : SubjectPattern)
    → is_exact p ≡ true
    → (p.has_tail ≡ false) × (all_literal p.segments ≡ true)
unfolding is_exact
is_exact-parts p h = ground arith

spell-exact :
    (segs : List PatternSegment) (has_tail : Bool)
    → has_tail ≡ false
    → all_literal segs ≡ true
    → spell segs has_tail ≡ literals segs
spell-exact segs true t h = cc
spell-exact segs false t h = spell-literals segs h

-- The literals of a parsed pattern without wildcards are the tokens of the string.
literals-parse :
    (s : Bytes) (p : SubjectPattern)
    → parse s ≡ ok p
    → is_exact p ≡ true
    → literals p.segments ≡ split s
literals-parse s p e x = elim (parse-Decides s) [
  | inl (wf, (q, f, raw, sp, words)) ↦
      let same : p ≡ q = ground (arith, e, f) in
      let (t, l) = is_exact-parts p x in sym (spell-exact p.segments p.has_tail t l) ∙ rw same sp
  | inr (bad, (y, f)) ↦ cc
]

matches-true_iff :
    (p : SubjectPattern) (t : Bytes)
    → (matches p t ≡ some true) ↔ Matches p.segments p.has_tail (split t)
matches-true_iff p t = elim (matches-Decides p t) [
  | inl (e, m) ↦ ((λ _. m), (λ _. e))
  | inr (e, n) ↦ ((λ h. cc (e, h)), (λ m. absurd (n m)))
]

-- A pattern without wildcards that was parsed from `s` gives `s` back as its exact subject, and
-- matches the subject `s` and no other.
pub exact-parse :
    (s t : Bytes) (p : SubjectPattern)
    → parse s ≡ ok p
    → is_exact p ≡ true
    → (exact_subject p ≡ s) × ((matches p t ≡ some true) ↔ (t ≡ s))
unfolding exact_subject
exact-parse s t p e x =
    let (no_tail, lits) = is_exact-parts p x in
    let same : literals p.segments ≡ split s = literals-parse s p e x in
    (
      ap join same ∙ join-split s,
      (
        (λ h.
            sym (join-split t)
            ∙ ap join (sym (literals-of_Matches ((matches-true_iff p t).0 h) no_tail lits) ∙ same)
            ∙ join-split s),
        (λ h.
            (matches-true_iff p t).1
              (rw (h, ← same) (Matches-literals p.segments p.has_tail no_tail lits))),
      ),
    )
