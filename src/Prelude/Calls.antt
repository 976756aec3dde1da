-- ===== src/Prelude/Calls.antt =====
-- What a Rust call may do: return, fail with an error value, or panic.
use mathlib.Core.Path.{◌≡◌, refl}
use mathlib.Core.Bool.{Bool, true, false}

pub data Outcome {ℓ} (E : Type 0) (A : Type ℓ) : Type ℓ where
  ok : A → Outcome E A
  err : E → Outcome E A
  panic : Outcome E A

infixl 5 ◌>>=◌ ◌>>◌
-- `?` at the end of a statement: the rest runs on the value.
abbrev pub ◌>>=◌ {ℓ κ} :
    {E : Type 0} {A : Type ℓ} {B : Type κ} → Outcome E A → (A → Outcome E B) → Outcome E B
panic >>= rest = panic
err e >>= rest = err e
ok a >>= rest = rest a

-- `if test { return Err(e) }`
abbrev pub reject_if : {E : Type 0} → Bool → E → Outcome E (Unit {0})
reject_if true e = err e
reject_if false e = ok tt

abbrev pub ◌>>◌ {ℓ} : {E : Type 0} {B : Type ℓ} → Outcome E (Unit {0}) → Outcome E B → Outcome E B
panic >> rest = panic
err e >> rest = err e
ok a >> rest = rest

-- `.map_err(|_| e)`
abbrev pub map_err {ℓ} : {D E : Type 0} {A : Type ℓ} → (D → E) → Outcome D A → Outcome E A
map_err f (ok a) = ok a
map_err f (err d) = err (f d)
map_err f panic = panic

-- The call returns, with a value or an error.
abbrev pub Returns {ℓ} : {E : Type 0} {A : Type ℓ} → Outcome E A → Type 0
Returns (ok a) = Unit
Returns (err e) = Unit
Returns panic = ⊥

pub Returns-bind {ℓ κ} :
    {E : Type 0} {A : Type ℓ} {B : Type κ} (m : Outcome E A) (f : A → Outcome E B)
    → Returns m
    → ((a : A) → m ≡ ok a → Returns (f a))
    → Returns (m >>= f)
Returns-bind (ok a) f h k = k a refl
Returns-bind (err e) f h k = tt
Returns-bind panic f h k = h
