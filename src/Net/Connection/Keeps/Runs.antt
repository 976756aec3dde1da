-- ===== src/Net/Connection/Keeps/Runs.antt =====
-- Whatever a client sends, and however its bytes are cut into reads: what the run of a connection of
-- net/src/connection.rs has reached.
use blipmq.Prelude.{
  ℕ, zero, suc, ◌<◌, ◌≡◌, refl, ◌∙◌, arith, Bool, false, Bool-cases, inl, inr, List, [], ◌∷◌, ◌++◌,
  length, Option, none, some, Outcome, ok, err, panic,
}
use blipmq.Wire.Buf.{Bytes, Buf}
use blipmq.Core.Broker.{Broker}
use blipmq.Core.Subscriber.{PushSlot}
use blipmq.Net.Frame.{Frame, FrameDecodeError, try_decode_frame}
use blipmq.Net.Connection.{
  Round, Session, Done, Event, shutdown, read_error, chunk, new, with_buf, and_then, next_frame,
  drain, carry_on, read_chunk, run, process_frame,
}
use blipmq.Net.Connection.Keeps.Login.{
  Turns, here, then_turn, start, IsLogin, Turns-trans, Turns-IsLogin, Turns-authenticated,
}
use blipmq.Net.Connection.Keeps.Frames.{login, process_frame-Advances}

-- The login went along the relation, and while nobody is logged in the broker is as it was.
abbrev Moves : (Bytes → Bool) → Session → Session → Type 0
Moves validate s s' =
    Turns validate (login s.reader) (login s'.reader)
    × (s'.reader.authenticated ≡ false → s'.broker ≡ s.broker)

abbrev StepTo : (Bytes → Bool) → Session → Session × Done → Type 0
StepTo validate s out = Moves validate s out.0 × (out.1 ≡ ok tt → out.0.reader.auth_failures < 5)

abbrev RunTo : (Bytes → Bool) → Session → Session × Option Done → Type 0
RunTo validate s out = Moves validate s out.0 × (out.1 ≡ none → out.0.reader.auth_failures < 5)

module _ (validate : Bytes → Bool) where
  Moves-trans : (s t u : Session) → Moves validate s t → Moves validate t u → Moves validate s u
  Moves-trans s t u first rest = (
    Turns-trans validate _ _ _ first.0 rest.0,
    λ out. elim (Bool-cases t.reader.authenticated) [
      | inl inside ↦ absurd (ground (arith, out, Turns-authenticated validate _ _ rest.0 inside))
      | inr outside ↦ rest.1 out ∙ first.1 outside
    ],
  )

module _ ⦃w : Buf⦄ (validate : Bytes → Bool) where
  one_frame :
      (round : Round) (f : Frame) (s : Session)
      → s.reader.auth_failures < 5
      → StepTo validate s (process_frame validate round f s)
  one_frame round f s few =
      let ((turn, below), alone) = process_frame-Advances validate round f s few in
      (
        (
          then_turn here turn,
          λ out. elim (Bool-cases s.reader.authenticated) [
            | inl inside ↦
                absurd (
                  ground
                    (arith, out, Turns-authenticated validate _ _ (then_turn here turn) inside))
            | inr outside ↦ alone outside
          ],
        ),
        below,
      )

  and_then-StepTo :
      (rest : Session → Session × Done) (s : Session) (out : Session × Done)
      → ((t : Session) → t.reader.auth_failures < 5 → StepTo validate t (rest t))
      → StepTo validate s out
      → StepTo validate s (and_then rest out)
  unfolding and_then
  and_then-StepTo rest s (t, ok _) more h =
      let (moved, below) = more t (h.1 refl) in
      (Moves-trans validate s t (rest t).0 h.0 moved, below)
  and_then-StepTo rest s (t, err e) more h = h
  and_then-StepTo rest s (t, panic) more h = h

  next_frame-StepTo :
      (round : Round) (rest : Session → Session × Done) (s : Session)
      (o : Bytes × Outcome FrameDecodeError (Option Frame))
      → s.reader.auth_failures < 5
      → ((t : Session) → t.reader.auth_failures < 5 → StepTo validate t (rest t))
      → StepTo validate s (next_frame validate round rest s o)
  unfolding next_frame
  next_frame-StepTo round rest s (buf, ok none) few more = ((here, λ h. refl), λ h. few)
  next_frame-StepTo round rest s (buf, ok (some f)) few more =
      and_then-StepTo rest s (process_frame validate round f (with_buf buf s)) more
        (one_frame round f (with_buf buf s) few)
  next_frame-StepTo round rest s (buf, err e) few more = ((here, λ h. refl), λ h. few)
  next_frame-StepTo round rest s (buf, panic) few more = ((here, λ h. refl), λ h. few)

  drain-StepTo :
      (rounds : ℕ → Round) (fuel : ℕ) (s : Session)
      → s.reader.auth_failures < 5
      → StepTo validate s (drain validate rounds fuel s)
  unfolding drain
  drain-StepTo rounds zero s few = ((here, λ h. refl), λ h. few)
  drain-StepTo rounds (suc fuel) s few =
      next_frame-StepTo (rounds fuel) (drain validate rounds fuel) s
        (try_decode_frame s.reader.read_buf) few (drain-StepTo rounds fuel)

  carry_on-RunTo :
      (rest : Session → Session × Option Done) (s : Session) (out : Session × Done)
      → ((t : Session) → t.reader.auth_failures < 5 → RunTo validate t (rest t))
      → StepTo validate s out
      → RunTo validate s (carry_on rest out)
  unfolding carry_on
  carry_on-RunTo rest s (t, ok _) more h =
      let (moved, below) = more t (h.1 refl) in
      (Moves-trans validate s t (rest t).0 h.0 moved, below)
  carry_on-RunTo rest s (t, err e) more h = (h.0, λ k. absurd (ground (arith, k)))
  carry_on-RunTo rest s (t, panic) more h = (h.0, λ k. absurd (ground (arith, k)))

  run-RunTo :
      (es : List Event) (s : Session)
      → s.reader.auth_failures < 5
      → RunTo validate s (run validate es s)
  unfolding run read_chunk
  run-RunTo [] s few = ((here, λ h. refl), λ h. few)
  run-RunTo (shutdown ∷ es) s few = ((here, λ h. refl), λ h. few)
  run-RunTo (read_error kind ∷ es) s few = ((here, λ h. refl), λ h. few)
  run-RunTo (chunk rounds [] ∷ es) s few = ((here, λ h. refl), λ h. few)
  run-RunTo (chunk rounds (b ∷ bs) ∷ es) s few =
      let buf : Bytes = s.reader.read_buf ++ b ∷ bs in
      carry_on-RunTo (run validate es) s (read_chunk validate rounds (b ∷ bs) s) (run-RunTo es)
        (drain-StepTo rounds (suc (length buf)) (with_buf buf s) few)

  -- After any reads of any bytes on a new connection: if it is logged in, a HELLO came before and the
  -- validator accepts some key; it has at most five failures, and fewer while it waits for more to read;
  -- and while it is not logged in, the n-th failure has cost 50 * 2 ^ (n - 1) milliseconds of sleep.
  pub run-IsLogin :
      (es : List Event) (id : ℕ) (slot : PushSlot) (b : Broker)
      → let (s, ending) = run validate es (record { reader = new id slot; broker = b }) in
        IsLogin validate (login s.reader) × (ending ≡ none → s.reader.auth_failures < 5)
  unfolding new start
  run-IsLogin es id slot b =
      let (moved, below) =
        run-RunTo es (record { reader = new id slot; broker = b }) (omega arith) in
      (Turns-IsLogin validate _ moved.0, below)

  -- As long as a new connection is not logged in, the broker is as it was, whatever was read.
  pub run-broker :
      (es : List Event) (id : ℕ) (slot : PushSlot) (b : Broker)
      → (run validate es (record { reader = new id slot; broker = b })).0.reader.authenticated
        ≡ false
      → (run validate es (record { reader = new id slot; broker = b })).0.broker ≡ b
  unfolding new
  run-broker es id slot b outside =
      (run-RunTo es (record { reader = new id slot; broker = b }) (omega arith)).0.1 outside
