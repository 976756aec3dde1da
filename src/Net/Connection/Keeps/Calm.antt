-- ===== src/Net/Connection/Keeps/Calm.antt =====
-- One frame in net/src/connection.rs, and its effect on the read buffer.
use blipmq.Prelude.{
  ℕ, ◌≡◌, refl, arith, Bool, true, not, ◌==◌, if-holds, none, some, Outcome, ok, err, panic,
  Returns,
}
use blipmq.Wire.Buf.{Bytes, Buf}
use blipmq.Wire.Text.{literal}
use blipmq.Core.Broker.{Broker}
use blipmq.Net.Error.{Error, ErrorKind}
use blipmq.Net.Frame.{Frame, FrameType, FrameDecodeError}
use blipmq.Net.Payload.Hello.{HelloPayload}
use blipmq.Net.Payload.Auth.{AuthPayload}
use blipmq.Net.Payload.Ack as AckCodec
use blipmq.Net.Payload.Total.{decoders-Return}
use blipmq.Net.Server.{FrameResponse, make_nack}
use blipmq.Net.Server.Total.{IsCalm, make_nack-Returns}
use blipmq.Net.Server.Publish.{FastHandled}
use blipmq.Net.Server.Publish.Total.{handle_publish_fast-Returns}
use blipmq.Net.Server.Subscribe.Total.{handle_subscribe_slot-Returns}
use blipmq.Net.Server.Handler.Total.{handle_frame-Returns}
use blipmq.Net.Connection.{
  ReaderState, Round, Session, Done, send_inband, send_encoded, ack_frame, send_ack, send_nack,
  handle_hello, hello_decoded, auth_decoded, protocol_version, back_off, cap_failures, try_key,
  handle_auth, respond, by_handler, fall_through, process_publish, process_subscribe, admitted,
  by_type, process_frame,
}

-- No panic, and the buffer as before.
abbrev pub Calm : ReaderState → ReaderState × Done → Type 0
Calm r out = Returns out.1 × (out.0.read_buf ≡ r.read_buf)

ack_frame-Returns : ⦃w : Buf⦄ (correlation_id : ℕ) → Returns (ack_frame correlation_id)
unfolding ack_frame AckCodec.encode
ack_frame-Returns correlation_id = tt

module _ ⦃w : Buf⦄ (writer_open : Bool) (r : ReaderState) where
  send_encoded-Calm :
      (o : Outcome Error Frame) (s : ReaderState)
      → Returns o
      → s.read_buf ≡ r.read_buf
      → Calm r (send_encoded writer_open o s)
  unfolding send_encoded send_inband
  send_encoded-Calm (ok f) s h e = ground arith
  send_encoded-Calm (err x) s h e = (tt, e)
  send_encoded-Calm panic s h e = absurd h

  send_nack-Calm :
      (correlation_id code : ℕ) (message : Bytes)
      → Calm r (send_nack writer_open correlation_id code message r)
  unfolding send_nack
  send_nack-Calm correlation_id code message =
      send_encoded-Calm _ r (make_nack-Returns correlation_id code message) refl

  send_ack-Calm :
      (correlation_id : ℕ) (s : ReaderState)
      → s.read_buf ≡ r.read_buf
      → Calm r (send_ack writer_open correlation_id s)
  unfolding send_ack
  send_ack-Calm correlation_id s e =
      send_encoded-Calm (ack_frame correlation_id) s (ack_frame-Returns correlation_id) e

  hello_decoded-Calm :
      (correlation_id : ℕ) (o : Outcome FrameDecodeError HelloPayload)
      → Returns o
      → Calm r (hello_decoded writer_open correlation_id r o)
  unfolding hello_decoded
  hello_decoded-Calm correlation_id (ok p) h =
      if-holds (Calm r) (not (p.protocol_version == protocol_version)) _ _
        (λ _. send_nack-Calm correlation_id 426 _)
        (λ _. send_ack-Calm correlation_id (record r { hello_performed = true }) refl)
  hello_decoded-Calm correlation_id (err _) h = send_nack-Calm correlation_id 400 _
  hello_decoded-Calm correlation_id panic h = absurd h

  handle_hello-Calm : (f : Frame) → Calm r (handle_hello writer_open f r)
  unfolding handle_hello
  handle_hello-Calm f =
      if-holds (Calm r) r.hello_performed _ _ (λ _. send_nack-Calm f.correlation_id 400 _)
        (λ _. hello_decoded-Calm f.correlation_id _ (decoders-Return f.payload).0)

  cap_failures-Calm : (out : ReaderState × Done) → Calm r out → Calm r (cap_failures out)
  unfolding cap_failures
  cap_failures-Calm (s, ok _) h = ground arith
  cap_failures-Calm (s, err e) h = h
  cap_failures-Calm (s, panic) h = h

  sent-Calm :
      (o : Outcome Error Frame)
      → Returns o
      → Calm r (cap_failures (send_encoded writer_open o (back_off r)))
  unfolding back_off
  sent-Calm o h =
      cap_failures-Calm (send_encoded writer_open o (back_off r))
        (send_encoded-Calm o (back_off r) h refl)

  try_key-Calm :
      (validate : Bytes → Bool) (correlation_id : ℕ) (api_key : Bytes)
      → Calm r (try_key validate writer_open correlation_id api_key r)
  unfolding try_key send_nack
  try_key-Calm validate correlation_id api_key =
      if-holds (Calm r) (validate api_key) _ _
        (λ _.
          send_ack-Calm correlation_id (record r { authenticated = true; auth_failures = 0 }) refl)
        (λ _.
          sent-Calm (make_nack correlation_id 401 (literal "invalid API key"))
            (make_nack-Returns correlation_id 401 _))

  auth_decoded-Calm :
      (validate : Bytes → Bool) (correlation_id : ℕ) (o : Outcome FrameDecodeError AuthPayload)
      → Returns o
      → Calm r (auth_decoded validate writer_open correlation_id r o)
  unfolding auth_decoded
  auth_decoded-Calm validate correlation_id (ok p) h =
      try_key-Calm validate correlation_id p.api_key
  auth_decoded-Calm validate correlation_id (err _) h = send_nack-Calm correlation_id 400 _
  auth_decoded-Calm validate correlation_id panic h = absurd h

  handle_auth-Calm :
      (validate : Bytes → Bool) (f : Frame) → Calm r (handle_auth validate writer_open f r)
  unfolding handle_auth
  handle_auth-Calm validate f =
      if-holds (Calm r) (not r.hello_performed) _ _ (λ _. send_nack-Calm f.correlation_id 400 _)
        λ _.
          if-holds (Calm r) r.authenticated _ _ (λ _. send_nack-Calm f.correlation_id 400 _)
            (λ _. auth_decoded-Calm validate f.correlation_id _ (decoders-Return f.payload).1)

abbrev pub CalmStep : Session → Session × Done → Type 0
CalmStep s out = Calm s.reader (out.0.reader, out.1)

module _ ⦃w : Buf⦄ (round : Round) (calm : IsCalm round.world) (f : Frame) (s : Session) where
  respond-Calm :
      (b : Broker) (o : Outcome Error FrameResponse)
      → Returns o
      → CalmStep s (respond round.writer_open s.reader (b, o))
  unfolding respond send_inband
  respond-Calm b (ok FrameResponse.nothing) h = (tt, refl)
  respond-Calm b (ok (FrameResponse.frame g)) h = ground arith
  respond-Calm b (err x) h = (tt, refl)
  respond-Calm b panic h = absurd h

  by_handler-Calm : CalmStep s (by_handler round f s)
  unfolding by_handler
  by_handler-Calm = respond-Calm _ _ (handle_frame-Returns round.world s.reader.id f s.broker calm)

  fall_through-Calm :
      (later : Session × Done) (h : FastHandled)
      → CalmStep s later
      → Returns h.2
      → CalmStep s (fall_through round s.reader later h)
  unfolding fall_through send_inband
  fall_through-Calm later (b, cache, ok none) c h = (tt, refl)
  fall_through-Calm later (b, cache, ok (some nack)) c h = ground arith
  fall_through-Calm later (b, cache, err (Error.io ErrorKind.unsupported)) c h = c
  fall_through-Calm later (b, cache, err (Error.io ErrorKind.broken_pipe)) c h = (tt, refl)
  fall_through-Calm later (b, cache, err (Error.io ErrorKind.permission_denied)) c h = (tt, refl)
  fall_through-Calm later (b, cache, err (Error.io ErrorKind.other)) c h = (tt, refl)
  fall_through-Calm later (b, cache, err (Error.frame_decode x)) c h = (tt, refl)
  fall_through-Calm later (b, cache, err (Error.frame_encode x)) c h = (tt, refl)
  fall_through-Calm later (b, cache, err (Error.handler x)) c h = (tt, refl)
  fall_through-Calm later (b, cache, panic) c h = absurd h

  admitted-Calm : (rest : Session × Done) → CalmStep s rest → CalmStep s (admitted round f s rest)
  unfolding admitted
  admitted-Calm rest c =
      if-holds (CalmStep s) (not s.reader.authenticated) _ _
        (λ _. send_nack-Calm round.writer_open s.reader f.correlation_id 401 _) (λ _. c)

  by_type-Calm :
      (validate : Bytes → Bool) (t : FrameType) → CalmStep s (by_type validate round f s t)
  unfolding by_type process_publish process_subscribe
  by_type-Calm validate FrameType.hello = handle_hello-Calm round.writer_open s.reader f
  by_type-Calm validate FrameType.auth = handle_auth-Calm round.writer_open s.reader validate f
  by_type-Calm validate FrameType.publish = admitted-Calm _ (
      fall_through-Calm _ _ by_handler-Calm
        (handle_publish_fast-Returns round.world f s.broker s.reader.topic_cache))
  by_type-Calm validate FrameType.subscribe = admitted-Calm _ (
      respond-Calm _ _
        (handle_subscribe_slot-Returns round.world s.reader.id f s.reader.push_slot s.broker calm))
  by_type-Calm validate FrameType.ack = admitted-Calm _ by_handler-Calm
  by_type-Calm validate FrameType.nack = admitted-Calm _ by_handler-Calm
  by_type-Calm validate FrameType.ping = admitted-Calm _ by_handler-Calm
  by_type-Calm validate FrameType.pong = admitted-Calm _ by_handler-Calm
  by_type-Calm validate FrameType.poll = admitted-Calm _ by_handler-Calm
  by_type-Calm validate FrameType.deliver = admitted-Calm _ by_handler-Calm

  pub process_frame-Calm : (validate : Bytes → Bool) → CalmStep s (process_frame validate round f s)
  unfolding process_frame
  process_frame-Calm validate = by_type-Calm validate f.msg_type
