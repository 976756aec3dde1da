-- ===== src/Net/Connection/Keeps/Total.antt =====
-- The reader of net/src/connection.rs and its loop over the buffer, on any bytes.
use blipmq.Prelude.{
  ℕ, zero, suc, ◌<◌, ◌≡◌, refl, arith, Bool, List, [], ◌∷◌, ◌++◌, length, All, Option, none, some,
  Outcome, ok, err, panic, Returns,
}
use blipmq.Wire.Buf.{Bytes, Buf}
use blipmq.Net.Frame.{Frame, FrameDecodeError, try_decode_frame}
use blipmq.Net.Frame.Total.{try_decode_frame_total, try_decode_frame-shrinks}
use blipmq.Net.Server.Total.{IsCalm}
use blipmq.Net.Connection.{
  Round, Session, Done, Event, shutdown, read_error, chunk, with_buf, and_then, next_frame, drain,
  carry_on, read_chunk, run,
}
use blipmq.Net.Connection.Keeps.Calm.{CalmStep, process_frame-Calm}

module _ ⦃w : Buf⦄ (validate : Bytes → Bool) where
  and_then-Returns :
      (rest : Session → Session × Done) (size : ℕ) (s : Session) (out : Session × Done)
      → ((t : Session) → length t.reader.read_buf < size → Returns (rest t).1)
      → length s.reader.read_buf < size
      → CalmStep s out
      → Returns (and_then rest out).1
  unfolding and_then
  and_then-Returns rest size s (t, ok _) more small h = more t (ground (arith, h.1))
  and_then-Returns rest size s (t, err e) more small h = tt
  and_then-Returns rest size s (t, panic) more small h = h.0

  next_frame-Returns :
      (round : Round) (rest : Session → Session × Done) (size : ℕ) (s : Session)
      (o : Bytes × Outcome FrameDecodeError (Option Frame))
      → IsCalm round.world
      → ((t : Session) → length t.reader.read_buf < size → Returns (rest t).1)
      → Returns o.1
      → ((f : Frame) → o.1 ≡ ok (some f) → length o.0 < size)
      → Returns (next_frame validate round rest s o).1
  unfolding next_frame
  next_frame-Returns round rest size s (buf, ok none) calm more h shrinks = tt
  next_frame-Returns round rest size s (buf, ok (some f)) calm more h shrinks =
      and_then-Returns rest size (with_buf buf s) _ more (shrinks f refl)
        (process_frame-Calm round calm f (with_buf buf s) validate)
  next_frame-Returns round rest size s (buf, err e) calm more h shrinks = tt
  next_frame-Returns round rest size s (buf, panic) calm more h shrinks = h

  drain-Returns :
      (rounds : ℕ → Round) (calm : (n : ℕ) → IsCalm (rounds n).world) (fuel : ℕ) (s : Session)
      → length s.reader.read_buf < fuel
      → Returns (drain validate rounds fuel s).1
  unfolding drain
  drain-Returns rounds calm zero s h = absurd (omega arith)
  drain-Returns rounds calm (suc fuel) s h =
      next_frame-Returns (rounds fuel) (drain validate rounds fuel) fuel s
        (try_decode_frame s.reader.read_buf) (calm fuel)
        (λ t small. drain-Returns rounds calm fuel t small)
        (try_decode_frame_total s.reader.read_buf).0
        (λ f e. omega (arith, try_decode_frame-shrinks s.reader.read_buf f e))

  -- The log's calls return in every round of every read.
  abbrev pub CalmEvent : Event → Type 0
  CalmEvent shutdown = Unit
  CalmEvent (read_error kind) = Unit
  CalmEvent (chunk rounds bytes) = (n : ℕ) → IsCalm (rounds n).world

  abbrev pub Ends : Option Done → Type 0
  Ends none = Unit
  Ends (some done) = Returns done

  carry_on-Ends :
      (rest : Session → Session × Option Done) (out : Session × Done)
      → ((t : Session) → Ends (rest t).1)
      → Returns out.1
      → Ends (carry_on rest out).1
  unfolding carry_on
  carry_on-Ends rest (t, ok _) more h = more t
  carry_on-Ends rest (t, err e) more h = tt
  carry_on-Ends rest (t, panic) more h = h

  -- A reader whose log returns does not panic, whatever bytes it reads and however they are cut: it
  -- waits for more, or it has ended with a value or an error. The rounds of its loop suffice.
  pub run-Ends : (es : List Event) (s : Session) → All CalmEvent es → Ends (run validate es s).1
  unfolding run read_chunk
  run-Ends [] s calm = tt
  run-Ends (shutdown ∷ es) s calm = tt
  run-Ends (read_error kind ∷ es) s calm = tt
  run-Ends (chunk rounds [] ∷ es) s calm = tt
  run-Ends (chunk rounds (b ∷ bs) ∷ es) s calm =
      let buf : Bytes = s.reader.read_buf ++ b ∷ bs in
      carry_on-Ends (run validate es) (read_chunk validate rounds (b ∷ bs) s)
        (λ t. run-Ends es t calm.1)
        (drain-Returns rounds calm.0 (suc (length buf)) (with_buf buf s) (omega arith))
