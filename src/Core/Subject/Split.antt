-- ===== src/Core/Subject/Split.antt =====
-- Splitting at dots and joining, and the equality test of strings.
use blipmq.Prelude.{
  ℕ, ◌≡◌, ◌≢◌, ◌↔◌, refl, ap, sym, ◌∙◌, arith, Bool, true, false, List, [], ◌∷◌, ◌==◌, ==_iff,
}
use blipmq.Wire.Buf.{Bytes}
use blipmq.Core.Subject.{bytes_eq, split, put_front, join}

pub bytes_eq_iff : (xs ys : Bytes) → (bytes_eq xs ys ≡ true) ↔ (xs ≡ ys)
unfolding bytes_eq
bytes_eq_iff [] [] = ground arith
bytes_eq_iff [] (y ∷ ys) = ground arith
bytes_eq_iff (x ∷ xs) [] = ground arith
bytes_eq_iff (x ∷ xs) (y ∷ ys) = ground (arith, bytes_eq_iff xs ys)

pub split-ne-nil : (s : Bytes) → split s ≢ []
unfolding split put_front
split-ne-nil [] = ground arith
split-ne-nil (c ∷ cs) = ground (arith, split-ne-nil cs)

join-put_front :
    (d : Bool) (c : ℕ) (ts : List Bytes)
    → (d ≡ true → c ≡ b'.')
    → ts ≢ []
    → join (put_front d c ts) ≡ c ∷ join ts
unfolding join put_front
join-put_front true c [] h n = absurd (n refl)
join-put_front true c (t ∷ ts) h n = ap (λ (k : ℕ). k ∷ join (t ∷ ts)) (sym (h refl))
join-put_front false c [] h n = absurd (n refl)
join-put_front false c (t ∷ []) h n = refl
join-put_front false c (t ∷ u ∷ ts) h n = refl

-- Nothing is lost at the dots.
pub join-split : (s : Bytes) → join (split s) ≡ s
unfolding split
join-split [] = unfold join in refl
join-split (c ∷ cs) =
    join-put_front (c == b'.') c (split cs) (λ e. (==_iff c b'.').0 e) (split-ne-nil cs)
    ∙ ap (λ (s : Bytes). c ∷ s) (join-split cs)
