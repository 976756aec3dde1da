-- ===== src/Net/Connection/Keeps/Login.antt =====
-- The login of a connection: what HELLO and AUTH frames may change, and what holds after any of them.
use blipmq.Prelude.{ℕ, zero, suc, ◌+◌, ◌*◌, ◌^◌, ◌≤◌, ◌<◌, ◌≡◌, refl, Bool, true, false, arith}
use blipmq.Wire.Buf.{Bytes}

pub record Login : Type 0 where
  pub hello_performed : Bool
  pub authenticated : Bool
  pub auth_failures : ℕ
  pub slept_ms : ℕ

-- One frame: it changes nothing, or greets, or logs in with a key that the validator accepts, or fails
-- to, which takes twice as long every time.
pub data Turn (validate : Bytes → Bool) : Login → Login → Type 0 where
  keeps : (l : Login) → Turn validate l l
  greets :
      (l : Login)
      → l.hello_performed ≡ false
      → Turn validate l (record l { hello_performed = true })
  admits :
      (l : Login) (key : Bytes)
      → l.hello_performed ≡ true
      → l.authenticated ≡ false
      → validate key ≡ true
      → Turn validate l (record l { authenticated = true; auth_failures = 0 })
  refuses :
      (l : Login)
      → l.hello_performed ≡ true
      → l.authenticated ≡ false
      → l.auth_failures < 5
      → Turn validate l (record l {
        auth_failures = l.auth_failures + 1;
        slept_ms = l.slept_ms + 50 * 2 ^ l.auth_failures;
      })

pub data Turns (validate : Bytes → Bool) (l : Login) : Login → Type 0 where
  here : Turns validate l l
  then_turn : {m n : Login} → Turns validate l m → Turn validate m n → Turns validate l n

pub Turns-trans :
    (validate : Bytes → Bool) (l m n : Login)
    → Turns validate l m
    → Turns validate m n
    → Turns validate l n
Turns-trans validate l m n first here = first
Turns-trans validate l m n first (then_turn rest turn) =
    then_turn (Turns-trans validate l m _ first rest) turn

unfoldable pub start : Login
start = record { hello_performed = false; authenticated = false; auth_failures = 0; slept_ms = 0 }

-- How long `n` failures take.
unfoldable pub penalty : ℕ → ℕ
penalty zero = 0
penalty (suc n) = penalty n + 50 * 2 ^ n

-- Nobody is logged in without a greeting and an accepted key, and the failures are counted and paid for.
pub record IsLogin (validate : Bytes → Bool) (l : Login) : Type 0 where
  pub greeted : l.authenticated ≡ true → l.hello_performed ≡ true
  pub accepted : l.authenticated ≡ true → (key : Bytes) × (validate key ≡ true)
  pub capped : l.auth_failures ≤ 5
  pub paid : l.authenticated ≡ false → l.slept_ms ≡ penalty l.auth_failures

start-IsLogin : (validate : Bytes → Bool) → IsLogin validate start
unfolding start penalty
start-IsLogin validate = record {
  greeted = λ h. cc;
  accepted = λ h. absurd (cc);
  capped = omega arith;
  paid = λ h. omega arith;
}

Turn-IsLogin :
    (validate : Bytes → Bool) (l m : Login)
    → IsLogin validate l
    → Turn validate l m
    → IsLogin validate m
unfolding penalty
Turn-IsLogin validate l m v (keeps _) = v
Turn-IsLogin validate l m v (greets _ fresh) = record {
  greeted = λ h. ground arith;
  accepted = v.accepted;
  capped = v.capped;
  paid = v.paid;
}
Turn-IsLogin validate l m v (admits _ key greeted out ok) = record {
  greeted = λ h. greeted;
  accepted = λ h. (key, ok);
  capped = omega arith;
  paid = λ h. absurd (ground arith);
}
Turn-IsLogin validate l m v (refuses _ greeted out few) = record {
  greeted = v.greeted;
  accepted = v.accepted;
  capped = omega arith;
  paid = λ h. ground (arith, v.paid h);
}

-- After any number of frames.
pub Turns-IsLogin :
    (validate : Bytes → Bool) (l : Login) → Turns validate start l → IsLogin validate l
Turns-IsLogin validate l here = start-IsLogin validate
Turns-IsLogin validate l (then_turn before turn) =
    Turn-IsLogin validate _ l (Turns-IsLogin validate _ before) turn

-- Nobody is logged out again.
Turn-authenticated :
    (validate : Bytes → Bool) (l m : Login)
    → Turn validate l m
    → l.authenticated ≡ true
    → m.authenticated ≡ true
Turn-authenticated validate l m (keeps _) h = h
Turn-authenticated validate l m (greets _ fresh) h = h
Turn-authenticated validate l m (admits _ key greeted out ok) h = refl
Turn-authenticated validate l m (refuses _ greeted out few) h = h

pub Turns-authenticated :
    (validate : Bytes → Bool) (l m : Login)
    → Turns validate l m
    → l.authenticated ≡ true
    → m.authenticated ≡ true
Turns-authenticated validate l m here h = h
Turns-authenticated validate l m (then_turn before turn) h =
    Turn-authenticated validate _ m turn (Turns-authenticated validate l _ before h)
