-- ===== src/Net/Connection/Keeps/Frames.antt =====
-- One frame of net/src/connection.rs as a step of the login relation.
use Prim.Native.Nat.{min}
use blipmq.Prelude.{
  ℕ, zero, suc, ◌+◌, ◌*◌, ◌^◌, ◌<◌, ◌≡◌, refl, sym, subst, arith, Bool, true, false, not, ◌==◌,
  Bool-cases, inl, inr, if-holds, Outcome, ok, err, panic, none, some, leb, ◌-◌,
}
use blipmq.Wire.Buf.{Bytes, Buf}
use blipmq.Net.Error.{Error, ErrorKind}
use blipmq.Net.Frame.{Frame, FrameType, FrameDecodeError}
use blipmq.Net.Payload.Hello.{HelloPayload}
use blipmq.Net.Payload.Auth.{AuthPayload}
use blipmq.Net.Payload.Hello as HelloCodec
use blipmq.Net.Payload.Auth as AuthCodec
use blipmq.Net.Server.{FrameResponse, Handled}
use blipmq.Net.Server.Publish.{FastHandled}
use blipmq.Net.Connection.{
  ReaderState, Round, Session, Done, send_inband, send_encoded, send_ack, send_nack, handle_hello,
  hello_decoded, auth_decoded, protocol_version, backoff_ms, back_off, cap_failures, try_key,
  handle_auth, respond, by_handler, fall_through, process_publish, process_subscribe, admitted,
  by_type, process_frame,
}
use blipmq.Net.Connection.Keeps.Login.{Login, Turn, keeps, greets, admits, refuses}

abbrev pub login : ReaderState → Login
login r = record {
  hello_performed = r.hello_performed;
  authenticated = r.authenticated;
  auth_failures = r.auth_failures;
  slept_ms = r.slept_ms;
}

-- What is sent does not change the login.
send_encoded-login :
    (writer_open : Bool) (o : Outcome Error Frame) (r : ReaderState)
    → login (send_encoded writer_open o r).0 ≡ login r
unfolding send_encoded send_inband
send_encoded-login true (ok f) r = refl
send_encoded-login false (ok f) r = refl
send_encoded-login writer_open (err e) r = refl
send_encoded-login writer_open panic r = refl

-- A step that goes along the relation, and stays open only below the cap.
abbrev pub Goes : (Bytes → Bool) → ReaderState → ReaderState × Done → Type 0
Goes validate r out =
    Turn validate (login r) (login out.0) × (out.1 ≡ ok tt → out.0.auth_failures < 5)

stays :
    (validate : Bytes → Bool) (r : ReaderState) (out : ReaderState × Done)
    → r.auth_failures < 5
    → login out.0 ≡ login r
    → Goes validate r out
stays validate r out few e =
    (subst (Turn validate (login r)) (sym e) (keeps (login r)), λ h. ground (arith, e))

module _ ⦃w : Buf⦄ (validate : Bytes → Bool) (writer_open : Bool) (r : ReaderState)
    (few : r.auth_failures < 5) where
  -- A step along the relation, and then an answer.
  sends :
      (s : ReaderState) (o : Outcome Error Frame)
      → Turn validate (login r) (login s)
      → s.auth_failures < 5
      → Goes validate r (send_encoded writer_open o s)
  sends s o turn below = (
    subst (Turn validate (login r)) (sym (send_encoded-login writer_open o s)) turn,
    λ h. ground (arith, send_encoded-login writer_open o s),
  )

  send_nack-Goes :
      (correlation_id code : ℕ) (message : Bytes)
      → Goes validate r (send_nack writer_open correlation_id code message r)
  unfolding send_nack
  send_nack-Goes correlation_id code message = sends r _ (keeps (login r)) few

  hello_decoded-Goes :
      (correlation_id : ℕ) (o : Outcome FrameDecodeError HelloPayload)
      → r.hello_performed ≡ false
      → Goes validate r (hello_decoded writer_open correlation_id r o)
  unfolding hello_decoded send_ack
  hello_decoded-Goes correlation_id (ok p) fresh =
      if-holds (Goes validate r) (not (p.protocol_version == protocol_version)) _ _
        (λ _. send_nack-Goes correlation_id 426 _)
        (λ _. sends (record r { hello_performed = true }) _ (greets (login r) fresh) few)
  hello_decoded-Goes correlation_id (err _) fresh = send_nack-Goes correlation_id 400 _
  hello_decoded-Goes correlation_id panic fresh = (keeps (login r), λ h. few)

  handle_hello-Goes : (f : Frame) → Goes validate r (handle_hello writer_open f r)
  unfolding handle_hello
  handle_hello-Goes f =
      if-holds (Goes validate r) r.hello_performed _ _ (λ _. send_nack-Goes f.correlation_id 400 _)
        (hello_decoded-Goes f.correlation_id (HelloCodec.decode f.payload))

  doubles : (n : ℕ) → n < 5 → backoff_ms (n + 1) ≡ 50 * 2 ^ n
  unfolding backoff_ms
  doubles zero h = refl
  doubles (suc zero) h = refl
  doubles (suc (suc zero)) h = refl
  doubles (suc (suc (suc zero))) h = refl
  doubles (suc (suc (suc (suc zero)))) h = refl
  doubles (suc (suc (suc (suc (suc n))))) h = absurd (omega arith)

  cap_failures-Goes :
      (correlation_id : ℕ) (s : ReaderState) (o : Outcome Error Frame)
      → Turn validate (login r) (login s)
      → Goes validate r (cap_failures (send_encoded writer_open o s))
  unfolding cap_failures send_encoded send_inband
  cap_failures-Goes correlation_id s (ok f) turn = elim (Bool-cases writer_open) [
    | inl there ↦ rw there (
        if-holds (Goes validate r) (leb 5 s.auth_failures) _ _
          (λ _. (turn, λ h. absurd (ground (arith, h)))) (λ few. (turn, λ h. ground (arith, few))))
    | inr gone ↦ rw gone (turn, λ h. absurd (ground (arith, h)))
  ]
  cap_failures-Goes correlation_id s (err e) turn = (turn, λ h. absurd (ground (arith, h)))
  cap_failures-Goes correlation_id s panic turn = (turn, λ h. absurd (ground (arith, h)))

  refused :
      r.hello_performed ≡ true
      → r.authenticated ≡ false
      → Turn validate (login r) (login (back_off r))
  unfolding back_off
  refused greeted out =
      subst
        (λ (n : ℕ).
          Turn validate (login r)
            (record (login r) { auth_failures = n; slept_ms = r.slept_ms + backoff_ms n }))
        (let e : r.auth_failures + 1 ≡ min (r.auth_failures + 1) (2 ^ 32 - 1) = omega arith in e)
        (subst
          (λ (n : ℕ).
            Turn validate (login r)
              (record (login r) { auth_failures = r.auth_failures + 1; slept_ms = r.slept_ms + n }))
          (sym (doubles r.auth_failures few)) (refuses (login r) greeted out few))

  try_key-Goes :
      (correlation_id : ℕ) (api_key : Bytes)
      → r.hello_performed ≡ true
      → r.authenticated ≡ false
      → Goes validate r (try_key validate writer_open correlation_id api_key r)
  unfolding try_key send_ack send_nack
  try_key-Goes correlation_id api_key greeted out =
      if-holds (Goes validate r) (validate api_key) _ _
        (λ good.
          sends (record r { authenticated = true; auth_failures = 0 }) _
            (admits (login r) api_key greeted out good) (omega arith))
        (λ bad. cap_failures-Goes correlation_id (back_off r) _ (refused greeted out))

  auth_decoded-Goes :
      (correlation_id : ℕ) (o : Outcome FrameDecodeError AuthPayload)
      → r.hello_performed ≡ true
      → r.authenticated ≡ false
      → Goes validate r (auth_decoded validate writer_open correlation_id r o)
  unfolding auth_decoded
  auth_decoded-Goes correlation_id (ok p) greeted out =
      try_key-Goes correlation_id p.api_key greeted out
  auth_decoded-Goes correlation_id (err _) greeted out = send_nack-Goes correlation_id 400 _
  auth_decoded-Goes correlation_id panic greeted out = (keeps (login r), λ h. few)

  handle_auth-Goes : (f : Frame) → Goes validate r (handle_auth validate writer_open f r)
  unfolding handle_auth
  handle_auth-Goes f =
      if-holds (Goes validate r) (not r.hello_performed) _ _
        (λ _. send_nack-Goes f.correlation_id 400 _)
        (λ greeted.
          if-holds (Goes validate r) r.authenticated _ _
            (λ _. send_nack-Goes f.correlation_id 400 _)
            (auth_decoded-Goes f.correlation_id (AuthCodec.decode f.payload) (ground arith)))

-- A step of the session. Nobody's frame reaches the broker before the login.
abbrev pub Advances : (Bytes → Bool) → Session → Session × Done → Type 0
Advances validate s out =
    Goes validate s.reader (out.0.reader, out.1)
    × (s.reader.authenticated ≡ false → out.0.broker ≡ s.broker)

module _ ⦃w : Buf⦄ (validate : Bytes → Bool) (round : Round) (f : Frame) (s : Session)
    (few : s.reader.auth_failures < 5) where
  respond-keeps :
      (r : ReaderState) (h : Handled)
      → login r ≡ login s.reader
      → login (respond round.writer_open r h).0.reader ≡ login s.reader
  unfolding respond send_inband
  respond-keeps r (b, ok FrameResponse.nothing) e = e
  respond-keeps r (b, ok (FrameResponse.frame g)) e = elim (Bool-cases round.writer_open) [
    | inl there ↦ rw there e
    | inr gone ↦ rw gone e
  ]
  respond-keeps r (b, err x) e = e
  respond-keeps r (b, panic) e = e

  fall_through-keeps :
      (later : Session × Done) (h : FastHandled)
      → login later.0.reader ≡ login s.reader
      → login (fall_through round s.reader later h).0.reader ≡ login s.reader
  unfolding fall_through send_inband
  fall_through-keeps later (b, cache, ok none) e = refl
  fall_through-keeps later (b, cache, ok (some nack)) e = elim (Bool-cases round.writer_open) [
    | inl there ↦ rw there refl
    | inr gone ↦ rw gone refl
  ]
  fall_through-keeps later (b, cache, err (Error.io ErrorKind.unsupported)) e = e
  fall_through-keeps later (b, cache, err (Error.io ErrorKind.broken_pipe)) e = refl
  fall_through-keeps later (b, cache, err (Error.io ErrorKind.permission_denied)) e = refl
  fall_through-keeps later (b, cache, err (Error.io ErrorKind.other)) e = refl
  fall_through-keeps later (b, cache, err (Error.frame_decode x)) e = refl
  fall_through-keeps later (b, cache, err (Error.frame_encode x)) e = refl
  fall_through-keeps later (b, cache, err (Error.handler x)) e = refl
  fall_through-keeps later (b, cache, panic) e = refl

  by_handler-keeps : login (by_handler round f s).0.reader ≡ login s.reader
  unfolding by_handler
  by_handler-keeps = respond-keeps s.reader _ refl

  admitted-Advances :
      (rest : Session × Done)
      → login rest.0.reader ≡ login s.reader
      → Advances validate s (admitted round f s rest)
  unfolding admitted
  admitted-Advances rest e =
      if-holds (Advances validate s) (not s.reader.authenticated) _ _
        (λ _. (
          send_nack-Goes validate round.writer_open s.reader few f.correlation_id 401 _,
          λ _. refl,
        ))
        (λ inside. (
          stays validate s.reader (rest.0.reader, rest.1) few e,
          λ out. absurd (ground (arith, inside, out)),
        ))

  by_type-Advances : (t : FrameType) → Advances validate s (by_type validate round f s t)
  unfolding by_type process_publish process_subscribe
  by_type-Advances FrameType.hello =
      (handle_hello-Goes validate round.writer_open s.reader few f, λ _. refl)
  by_type-Advances FrameType.auth =
      (handle_auth-Goes validate round.writer_open s.reader few f, λ _. refl)
  by_type-Advances FrameType.publish = admitted-Advances _ (fall_through-keeps _ _ by_handler-keeps)
  by_type-Advances FrameType.subscribe = admitted-Advances _ (respond-keeps s.reader _ refl)
  by_type-Advances FrameType.ack = admitted-Advances _ by_handler-keeps
  by_type-Advances FrameType.nack = admitted-Advances _ by_handler-keeps
  by_type-Advances FrameType.ping = admitted-Advances _ by_handler-keeps
  by_type-Advances FrameType.pong = admitted-Advances _ by_handler-keeps
  by_type-Advances FrameType.poll = admitted-Advances _ by_handler-keeps
  by_type-Advances FrameType.deliver = admitted-Advances _ by_handler-keeps

  pub process_frame-Advances : Advances validate s (process_frame validate round f s)
  unfolding process_frame
  process_frame-Advances = by_type-Advances f.msg_type
