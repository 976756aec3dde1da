-- ===== src/Core/Subject/Parse.antt =====
-- `SubjectPattern::parse` accepts exactly the well-formed patterns, and a parsed pattern spells
-- the string that it came from.
use blipmq.Prelude.{
  ℕ, suc, ◌+◌, ◌-◌, ◌≡◌, ◌≢◌, ◌⊎◌, inl, inr, refl, ap, ap₂, sym, ◌∙◌, arith, Bool, true, false,
  none, some, List, [], ◌∷◌, ◌++◌, append_assoc, append-nil, length, ◌==◌, Bool-cases, Outcome, ok,
  err, All,
}
use mathlib.Core.Bool.{false≢true}
use blipmq.Wire.Buf.{Bytes}
use blipmq.Core.Subject.{
  PatternSegment, PatternParseError, literal, wildcard, SubjectPattern, split, star, tail_mark,
  bytes_eq, parse_token, push, parse_tokens, parse,
}
use blipmq.Core.Subject.Split.{bytes_eq_iff, split-ne-nil}

-- No token is empty, and `>` stands at the end only.
abbrev pub WellFormed : List Bytes → Type 0
WellFormed [] = Unit
WellFormed (t ∷ []) = t ≢ []
WellFormed (t ∷ u ∷ ts) = (t ≢ []) × (t ≢ tail_mark) × WellFormed (u ∷ ts)

-- The tokens that a pattern spells.
abbrev pub spell : List PatternSegment → Bool → List Bytes
spell [] true = tail_mark ∷ []
spell [] false = []
spell (literal l ∷ segs) has_tail = l ∷ spell segs has_tail
spell (wildcard ∷ segs) has_tail = star ∷ spell segs has_tail

-- What a round of the loop does, by the kind of the token.
data Round (s : Bytes) (last i : ℕ) (tok : Bytes) : Type 0 where
  no_token :
      tok ≡ []
      → parse_token s last i tok ≡ err (PatternParseError.empty_token s)
      → Round s last i tok
  the_tail : tok ≡ tail_mark → i ≡ last → parse_token s last i tok ≡ ok none → Round s last i tok
  early_tail :
      tok ≡ tail_mark
      → i ≢ last
      → parse_token s last i tok ≡ err (PatternParseError.tail_not_last s)
      → Round s last i tok
  any : tok ≡ star → parse_token s last i tok ≡ ok (some wildcard) → Round s last i tok
  word :
      tok ≢ []
      → tok ≢ tail_mark
      → tok ≢ star
      → parse_token s last i tok ≡ ok (some (literal tok))
      → Round s last i tok

parse_token-Round : (s : Bytes) (last i : ℕ) (tok : Bytes) → Round s last i tok
unfolding parse_token
parse_token-Round s last i [] = no_token refl refl
parse_token-Round s last i (c ∷ cs) = elim (Bool-cases (bytes_eq (c ∷ cs) tail_mark)) [
  | inl is_tail ↦ elim (Bool-cases (i == last)) [
    | inl at_end ↦
        the_tail ((bytes_eq_iff (c ∷ cs) tail_mark).0 is_tail) (ground arith)
          (rw (is_tail, at_end) refl)
    | inr early ↦
        early_tail ((bytes_eq_iff (c ∷ cs) tail_mark).0 is_tail) (ground arith)
          (rw (is_tail, early) refl)
  ]
  | inr no_tail ↦ elim (Bool-cases (bytes_eq (c ∷ cs) star)) [
    | inl is_star ↦ any ((bytes_eq_iff (c ∷ cs) star).0 is_star) (rw no_tail (rw is_star refl))
    | inr no_star ↦
        word (ground arith) (λ e. cc (no_tail, (bytes_eq_iff (c ∷ cs) tail_mark).1 e))
          (λ e. cc (no_star, (bytes_eq_iff (c ∷ cs) star).1 e)) (rw no_tail (rw no_star refl))
  ]
]

WellFormed-head : (t : Bytes) (ts : List Bytes) → WellFormed (t ∷ ts) → t ≢ []
WellFormed-head t [] h = h
WellFormed-head t (u ∷ ts) h = h.0

WellFormed-tail : (t : Bytes) (ts : List Bytes) → WellFormed (t ∷ ts) → WellFormed ts
WellFormed-tail t [] h = tt
WellFormed-tail t (u ∷ ts) h = h.2

WellFormed-cons :
    (t : Bytes) (ts : List Bytes) → t ≢ [] → t ≢ tail_mark → WellFormed ts → WellFormed (t ∷ ts)
WellFormed-cons t [] n m h = n
WellFormed-cons t (u ∷ ts) n m h = (n, m, h)

-- A literal is a token that is no wildcard.
abbrev pub IsWord : PatternSegment → Type 0
IsWord (literal l) = (l ≢ []) × (l ≢ tail_mark) × (l ≢ star)
IsWord wildcard = Unit

-- The loop succeeds exactly on well-formed tokens, and then spells them.
data LoopParses (toks : List Bytes) (pre : List PatternSegment)
    (result : Outcome PatternParseError (List PatternSegment × Bool)) : Type 0 where
  parsed :
      (segs : List PatternSegment) (has_tail : Bool)
      → WellFormed toks
      → result ≡ ok (pre ++ segs, has_tail)
      → spell segs has_tail ≡ toks
      → All IsWord segs
      → LoopParses toks pre result
  failed : (e : PatternParseError) → ¬ WellFormed toks → result ≡ err e → LoopParses toks pre result

-- One more segment in front of what the rest of the loop parses.
LoopParses-push :
    (tok : Bytes) (toks : List Bytes) (pre : List PatternSegment) (seg : PatternSegment)
    (result rest : Outcome PatternParseError (List PatternSegment × Bool))
    → result ≡ rest
    → tok ≢ []
    → tok ≢ tail_mark
    → IsWord seg
    → ((segs : List PatternSegment) (has_tail : Bool)
        → spell segs has_tail ≡ toks
        → spell (seg ∷ segs) has_tail ≡ tok ∷ toks)
    → LoopParses toks (pre ++ (seg ∷ [])) rest
    → LoopParses (tok ∷ toks) pre result
LoopParses-push tok toks pre seg result rest q n m w sp (parsed segs has_tail wf e spells words) =
    parsed (seg ∷ segs) has_tail (WellFormed-cons tok toks n m wf)
      (q
        ∙ e
        ∙ ap (λ (l : List PatternSegment). ok (l, has_tail)) (append_assoc pre (seg ∷ []) segs))
      (sp segs has_tail spells) (w, words)
LoopParses-push tok toks pre seg result rest q n m w sp (failed x bad e) =
    failed x (λ wf. bad (WellFormed-tail tok toks wf)) (q ∙ e)

LoopParses-tail :
    (s : Bytes) (last i : ℕ) (tok : Bytes) (toks : List Bytes) (pre : List PatternSegment)
    (result : Outcome PatternParseError (List PatternSegment × Bool))
    → result ≡ parse_tokens s last i toks (pre, true)
    → tok ≡ tail_mark
    → length toks ≡ 0
    → LoopParses (tok ∷ toks) pre result
unfolding parse_tokens
LoopParses-tail s last i tok [] pre result q e h =
    parsed [] true (λ n. cc (e, n))
      (q ∙ ap (λ (l : List PatternSegment). ok (l, true)) (sym (append-nil pre)))
      (ap (λ (t : Bytes). t ∷ []) (sym e)) tt
LoopParses-tail s last i tok (u ∷ toks) pre result q e h = absurd (omega arith)

not-WellFormed_early :
    (tok : Bytes) (toks : List Bytes)
    → tok ≡ tail_mark
    → length toks ≢ 0
    → ¬ WellFormed (tok ∷ toks)
not-WellFormed_early tok [] e h = absurd (h refl)
not-WellFormed_early tok (u ∷ toks) e h = λ wf. wf.1 e

parse_tokens-fail :
    (s : Bytes) (last i : ℕ) (tok : Bytes) (toks : List Bytes) (acc : List PatternSegment × Bool)
    (e : PatternParseError)
    → parse_token s last i tok ≡ err e
    → parse_tokens s last i (tok ∷ toks) acc ≡ err e
unfolding parse_tokens
parse_tokens-fail s last i tok toks acc e r = ground (arith, r)

parse_tokens-tail :
    (s : Bytes) (last i : ℕ) (tok : Bytes) (toks : List Bytes) (pre : List PatternSegment)
    → parse_token s last i tok ≡ ok none
    → parse_tokens s last i (tok ∷ toks) (pre, false) ≡ parse_tokens s last (i + 1) toks (pre, true)
unfolding parse_tokens push
parse_tokens-tail s last i tok toks pre r = rw r refl

parse_tokens-push :
    (s : Bytes) (last i : ℕ) (tok : Bytes) (toks : List Bytes) (pre : List PatternSegment)
    (seg : PatternSegment)
    → parse_token s last i tok ≡ ok (some seg)
    → parse_tokens s last i (tok ∷ toks) (pre, false)
      ≡ parse_tokens s last (i + 1) toks (pre ++ (seg ∷ []), false)
unfolding parse_tokens push
parse_tokens-push s last i tok toks pre seg r = rw r refl

star-ne-tail_mark : star ≢ tail_mark
unfolding bytes_eq
star-ne-tail_mark e = false≢true ((bytes_eq_iff star tail_mark).1 e)

star-ne-nil : star ≢ []
star-ne-nil e = cc

-- One round of the loop, given what the rest of it does.
LoopParses-Round :
    (s : Bytes) (last i : ℕ) (tok : Bytes) (toks : List Bytes) (pre : List PatternSegment)
    → i + length (tok ∷ toks) ≡ suc last
    → ((pre' : List PatternSegment)
        → LoopParses toks pre' (parse_tokens s last (i + 1) toks (pre', false)))
    → Round s last i tok
    → LoopParses (tok ∷ toks) pre (parse_tokens s last i (tok ∷ toks) (pre, false))
LoopParses-Round s last i tok toks pre h ih (no_token e r) =
    failed (PatternParseError.empty_token s) (λ wf. WellFormed-head tok toks wf e)
      (parse_tokens-fail s last i tok toks (pre, false) _ r)
LoopParses-Round s last i tok toks pre h ih (the_tail e at_end r) =
    LoopParses-tail s last (i + 1) tok toks pre _ (parse_tokens-tail s last i tok toks pre r) e
      (omega arith)
LoopParses-Round s last i tok toks pre h ih (early_tail e early r) =
    failed (PatternParseError.tail_not_last s) (not-WellFormed_early tok toks e (omega arith))
      (parse_tokens-fail s last i tok toks (pre, false) _ r)
LoopParses-Round s last i tok toks pre h ih (any e r) =
    LoopParses-push tok toks pre wildcard _ _ (parse_tokens-push s last i tok toks pre wildcard r)
      (λ n. star-ne-nil (sym e ∙ n)) (λ m. star-ne-tail_mark (sym e ∙ m)) tt
      (λ segs has_tail sp. ap₂ (λ (x : Bytes) (xs : List Bytes). x ∷ xs) (sym e) sp)
      (ih (pre ++ (wildcard ∷ [])))
LoopParses-Round s last i tok toks pre h ih (word n m st r) =
    LoopParses-push tok toks pre (literal tok) _ _
      (parse_tokens-push s last i tok toks pre (literal tok) r) n m (n, m, st)
      (λ segs has_tail sp. ap (λ (xs : List Bytes). tok ∷ xs) sp) (ih (pre ++ (literal tok ∷ [])))

parse_tokens-LoopParses :
    (s : Bytes) (last i : ℕ) (toks : List Bytes) (pre : List PatternSegment)
    → i + length toks ≡ suc last
    → LoopParses toks pre (parse_tokens s last i toks (pre, false))
parse_tokens-LoopParses s last i [] pre h =
    unfold parse_tokens in
    parsed [] false tt (ap (λ (l : List PatternSegment). ok (l, false)) (sym (append-nil pre))) refl
      tt
parse_tokens-LoopParses s last i (tok ∷ toks) pre h =
    LoopParses-Round s last i tok toks pre h
      (λ pre'. parse_tokens-LoopParses s last (i + 1) toks pre' (omega arith))
      (parse_token-Round s last i tok)

-- `parse` answers with a pattern that keeps the string, spells its tokens and names no wildcard in
-- a literal.
abbrev pub Parses : Bytes → Outcome PatternParseError SubjectPattern → Type 0
Parses s result =
    (p : SubjectPattern) × (result ≡ ok p)
    × (p.raw ≡ s)
    × (spell p.segments p.has_tail ≡ split s)
    × All IsWord p.segments

parse_cons-Decides :
    (c : ℕ) (cs : Bytes)
    → LoopParses
        (split (c ∷ cs))
        []
        (parse_tokens (c ∷ cs) (length (split (c ∷ cs)) - 1) 0 (split (c ∷ cs)) ([], false))
    → (WellFormed (split (c ∷ cs)) × Parses (c ∷ cs) (parse (c ∷ cs)))
      ⊎ ((¬ WellFormed (split (c ∷ cs))) × ((e : PatternParseError) × (parse (c ∷ cs) ≡ err e)))
unfolding parse
parse_cons-Decides c cs (parsed segs has_tail wf e sp words) = inl (
  wf,
  (record { raw = c ∷ cs; segments = segs; has_tail = has_tail }, rw e refl, refl, sp, words),
)
parse_cons-Decides c cs (failed x bad e) = inr (bad, (x, rw e refl))

length_pred : (toks : List Bytes) → toks ≢ [] → 0 + length toks ≡ suc (length toks - 1)
length_pred [] h = absurd (h refl)
length_pred (t ∷ ts) h = omega arith

-- `parse` returns a pattern exactly when the tokens of the string are well formed, and the pattern
-- is the string's: it keeps it and spells its tokens. Otherwise it returns an error.
pub parse-Decides :
    (s : Bytes)
    → (WellFormed (split s) × Parses s (parse s))
      ⊎ ((¬ WellFormed (split s)) × ((e : PatternParseError) × (parse s ≡ err e)))
parse-Decides [] = unfold parse split in inr ((λ wf. wf refl), (PatternParseError.empty, refl))
parse-Decides (c ∷ cs) = parse_cons-Decides c cs (
    parse_tokens-LoopParses (c ∷ cs) (length (split (c ∷ cs)) - 1) 0 (split (c ∷ cs)) []
      (length_pred (split (c ∷ cs)) (split-ne-nil (c ∷ cs))))
