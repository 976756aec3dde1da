-- ===== src/Core/Queue/Maintenance/Heap.antt =====
-- A heap of timers of core/src/lib.rs as a sorted list.
use blipmq.Prelude.{
  ℕ, ◌≤◌, ◌≡◌, refl, arith, Bool, Bool-cases, true, false, ◌&&◌, ◌||◌, ◌==◌, List, [], ◌∷◌, inl,
  inr, All,
}
use blipmq.Core.Queue.{Timer, timer_before, heap_push}

-- Whether the heap has the timer of `tag` for `at`.
unfoldable pub timed : ℕ → ℕ → List Timer → Bool
timed at tag [] = false
timed at tag (x ∷ xs) = (x.at == at && x.tag == tag) || timed at tag xs

abbrev pub Sorted : List Timer → Type 0
Sorted [] = Unit
Sorted (x ∷ xs) = All (λ (y : Timer). x.at ≤ y.at) xs × Sorted xs

pub timed-push :
    (at tag : ℕ) (x : Timer) (xs : List Timer)
    → timed at tag (heap_push x xs) ≡ timed at tag (x ∷ xs)
unfolding timed heap_push
timed-push at tag x [] = refl
timed-push at tag x (y ∷ ys) = ground (arith, timed-push at tag x ys)

All-before :
    (x y : Timer) (ys : List Timer)
    → x.at ≤ y.at
    → All (λ (z : Timer). y.at ≤ z.at) ys
    → All (λ (z : Timer). x.at ≤ z.at) ys
All-before x y [] h a = tt
All-before x y (z ∷ ys) h a = (omega (arith, h, a.0), All-before x y ys h a.1)

All-push :
    (b : ℕ) (x : Timer) (ys : List Timer)
    → b ≤ x.at
    → All (λ (z : Timer). b ≤ z.at) ys
    → All (λ (z : Timer). b ≤ z.at) (heap_push x ys)
unfolding heap_push
All-push b x [] h a = (h, tt)
All-push b x (y ∷ ys) h a = elim (Bool-cases (timer_before x y)) [
  | inl first ↦ rw first (h, a)
  | inr after ↦ rw after (a.0, All-push b x ys h a.1)
]

pub heap_push-Sorted : (x : Timer) (xs : List Timer) → Sorted xs → Sorted (heap_push x xs)
unfolding heap_push
heap_push-Sorted x [] s = (tt, tt)
heap_push-Sorted x (y ∷ ys) s = elim (Bool-cases (timer_before x y)) [
  | inl first ↦
      let le : x.at ≤ y.at = unfold timer_before in ground arith in
      rw first ((le, All-before x y ys le s.0), s)
  | inr after ↦
      let le : y.at ≤ x.at = unfold timer_before in ground arith in
      rw after (All-push y.at x ys le s.0, heap_push-Sorted x ys s.1)
]

pub All-timed :
    (b at tag : ℕ) (xs : List Timer)
    → All (λ (z : Timer). b ≤ z.at) xs
    → timed at tag xs ≡ true
    → b ≤ at
unfolding timed
All-timed b at tag [] a h = absurd cc
All-timed b at tag (x ∷ xs) a h = ground (arith, All-timed b at tag xs a.1, a.0)
