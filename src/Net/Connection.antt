-- ===== src/Net/Connection.antt =====
-- net/src/connection.rs: the reader of a connection, its protocol state and the frames it processes.
-- The broker stands next to the reader's state, since every step of the reader may change both. A
-- read returns bytes; `validate` is the `ApiKeyValidator`. What else a step depends on is a `Round`.
pub mod Publishes
pub mod Reader
pub mod Encoder
pub mod Keeps
use Prim.Native.Nat.{min}
use blipmq.Prelude.{
  ℕ, zero, suc, ◌+◌, ◌-◌, ◌*◌, ◌^◌, Bool, true, false, not, ◌==◌, leb, List, [], ◌∷◌, ◌++◌, length,
  Option, none, some, if◌then◌else◌, Outcome, ok, err, panic, ◌>>=◌,
}
use blipmq.Wire.Buf.{Bytes, Buf}
use blipmq.Wire.Text.{literal}
use blipmq.Core.Subscriber.{PushSlot}
use blipmq.Core.Broker.{Broker}
use blipmq.Net.Error.{Error, ErrorKind, broken_pipe, permission_denied, encoded}
use blipmq.Net.Frame.{Frame, FrameType, FrameDecodeError, try_decode_frame}
use blipmq.Net.Payload.Hello.{HelloPayload}
use blipmq.Net.Payload.Hello as HelloCodec
use blipmq.Net.Payload.Auth.{AuthPayload}
use blipmq.Net.Payload.Auth as AuthCodec
use blipmq.Net.Payload.Ack as AckCodec
use blipmq.Net.Server.{World, Handled, FrameResponse, make_nack}
use blipmq.Net.Server.Cache.{PublishTopicCache, empty_cache}
use blipmq.Net.Server.Publish.{FastHandled, handle_publish_fast}
use blipmq.Net.Server.Subscribe.{handle_subscribe_slot}
use blipmq.Net.Server.Handler.{handle_frame, handle_connection_close}
pub use blipmq.Net.Connection.Reader.{ReaderState, Done, max_auth_failures, protocol_version}
unfoldable pub use blipmq.Net.Connection.Reader.{
  new, send_inband, send_encoded, ack_frame, send_ack, send_nack, hello_decoded, handle_hello,
  backoff_ms, back_off, cap_failures, try_key, auth_decoded, handle_auth,
}

-- What one frame is processed with; `writer_open` is false once the writer has dropped its channel.
pub record Round : Type 0 where
  pub world : World
  pub writer_open : Bool

pub record Session : Type 0 where
  pub reader : ReaderState
  pub broker : Broker

-- A step that leaves the broker alone.
abbrev pub beside : Broker → ReaderState × Done → Session × Done
beside b (r, done) = (record { reader = r; broker = b }, done)

-- The end of `process_frame`: what the handler answered goes to the writer.
unfoldable pub respond : Bool → ReaderState → Handled → Session × Done
respond writer_open r (b, ok FrameResponse.nothing) = (record { reader = r; broker = b }, ok tt)
respond writer_open r (b, ok (FrameResponse.frame f)) = beside b (send_inband writer_open f r)
respond writer_open r (b, err e) = (record { reader = r; broker = b }, err e)
respond writer_open r (b, panic) = (record { reader = r; broker = b }, panic)

-- A handler that waits.
by_handler : ⦃w : Buf⦄ → Round → Frame → Session → Session × Done
by_handler round f s =
    respond round.writer_open s.reader (handle_frame round.world s.reader.id f s.broker)

-- What follows the fast path of a PUBLISH frame.
fall_through : Round → ReaderState → Session × Done → FastHandled → Session × Done
fall_through round r later (b, cache, ok none) =
    (record { reader = record r { topic_cache = cache }; broker = b }, ok tt)
fall_through round r later (b, cache, ok (some nack)) =
    beside b (send_inband round.writer_open nack (record r { topic_cache = cache }))
fall_through round r later (b, cache, err (Error.io ErrorKind.unsupported)) = later
fall_through round r later (b, cache, err (Error.io ErrorKind.broken_pipe)) = (
  record { reader = record r { topic_cache = cache }; broker = b },
  err (Error.io ErrorKind.broken_pipe),
)
fall_through round r later (b, cache, err (Error.io ErrorKind.permission_denied)) = (
  record { reader = record r { topic_cache = cache }; broker = b },
  err (Error.io ErrorKind.permission_denied),
)
fall_through round r later (b, cache, err (Error.io ErrorKind.other)) = (
  record { reader = record r { topic_cache = cache }; broker = b },
  err (Error.io ErrorKind.other),
)
fall_through round r later (b, cache, err (Error.frame_decode e)) =
    (record { reader = record r { topic_cache = cache }; broker = b }, err (Error.frame_decode e))
fall_through round r later (b, cache, err (Error.frame_encode e)) =
    (record { reader = record r { topic_cache = cache }; broker = b }, err (Error.frame_encode e))
fall_through round r later (b, cache, err (Error.handler e)) =
    (record { reader = record r { topic_cache = cache }; broker = b }, err (Error.handler e))
fall_through round r later (b, cache, panic) =
    (record { reader = record r { topic_cache = cache }; broker = b }, panic)

unfoldable pub process_publish : ⦃w : Buf⦄ → Round → Frame → Session → Session × Done
unfolding fall_through by_handler
process_publish round f s =
    fall_through round s.reader (by_handler round f s)
      (handle_publish_fast round.world f s.broker s.reader.topic_cache)

unfoldable pub process_subscribe : ⦃w : Buf⦄ → Round → Frame → Session → Session × Done
process_subscribe round f s =
    respond round.writer_open s.reader
      (handle_subscribe_slot round.world s.reader.id f s.reader.push_slot s.broker)

-- A frame that only an authenticated connection may send.
admitted : ⦃w : Buf⦄ → Round → Frame → Session → Session × Done → Session × Done
admitted round f s rest =
    if not s.reader.authenticated
    then beside s.broker
        (send_nack round.writer_open f.correlation_id 401 (literal "unauthenticated") s.reader)
    else rest

by_type : ⦃w : Buf⦄ → (Bytes → Bool) → Round → Frame → Session → FrameType → Session × Done
unfolding admitted by_handler process_publish process_subscribe
by_type validate round f s FrameType.hello =
    beside s.broker (handle_hello round.writer_open f s.reader)
by_type validate round f s FrameType.auth =
    beside s.broker (handle_auth validate round.writer_open f s.reader)
by_type validate round f s FrameType.publish = admitted round f s (process_publish round f s)
by_type validate round f s FrameType.subscribe = admitted round f s (process_subscribe round f s)
by_type validate round f s FrameType.ack = admitted round f s (by_handler round f s)
by_type validate round f s FrameType.nack = admitted round f s (by_handler round f s)
by_type validate round f s FrameType.ping = admitted round f s (by_handler round f s)
by_type validate round f s FrameType.pong = admitted round f s (by_handler round f s)
by_type validate round f s FrameType.poll = admitted round f s (by_handler round f s)
by_type validate round f s FrameType.deliver = admitted round f s (by_handler round f s)

unfoldable pub process_frame : ⦃w : Buf⦄ → (Bytes → Bool) → Round → Frame → Session → Session × Done
unfolding by_type
process_frame validate round f s = by_type validate round f s f.msg_type

abbrev pub with_buf : Bytes → Session → Session
with_buf buf s = record s { reader = record s.reader { read_buf = buf } }

-- `self.process_frame(frame).await?`, and the rest of the loop.
and_then : (Session → Session × Done) → Session × Done → Session × Done
and_then rest (s, ok _) = rest s
and_then rest (s, err e) = (s, err e)
and_then rest (s, panic) = (s, panic)

next_frame :
    ⦃w : Buf⦄
    → (Bytes → Bool)
    → Round
    → (Session → Session × Done)
    → Session
    → Bytes × Outcome FrameDecodeError (Option Frame)
    → Session × Done
unfolding and_then
next_frame validate round rest s (buf, ok none) = (with_buf buf s, ok tt)
next_frame validate round rest s (buf, ok (some f)) =
    and_then rest (process_frame validate round f (with_buf buf s))
next_frame validate round rest s (buf, err e) = (with_buf buf s, err (Error.frame_decode e))
next_frame validate round rest s (buf, panic) = (with_buf buf s, panic)

-- The loop over the frames in the buffer. A frame has bytes, so that more rounds than the buffer has
-- bytes are enough; running out of them is a panic of the model.
drain : ⦃w : Buf⦄ → (Bytes → Bool) → (ℕ → Round) → ℕ → Session → Session × Done
unfolding next_frame
drain validate rounds zero s = (s, panic)
drain validate rounds (suc fuel) s =
    next_frame validate (rounds fuel) (drain validate rounds fuel) s
      (try_decode_frame s.reader.read_buf)

-- What wakes the reader: a shutdown, a failed read, or bytes, of which none are the end of the stream.
pub data Event : Type 0 where
  shutdown : Event
  read_error : ErrorKind → Event
  chunk : (ℕ → Round) → Bytes → Event

-- The next turn of the loop, unless an error ended it.
carry_on : (Session → Session × Option Done) → Session × Done → Session × Option Done
carry_on rest (s, ok _) = rest s
carry_on rest (s, err e) = (s, some (err e))
carry_on rest (s, panic) = (s, some panic)

read_chunk : ⦃w : Buf⦄ → (Bytes → Bool) → (ℕ → Round) → Bytes → Session → Session × Done
unfolding drain
read_chunk validate rounds bytes s =
    let buf = s.reader.read_buf ++ bytes in
    drain validate rounds (suc (length buf)) (with_buf buf s)

-- The session, and how `run` ended, or `none` while it waits for the next event.
pub run : ⦃w : Buf⦄ → (Bytes → Bool) → List Event → Session → Session × Option Done
unfolding carry_on read_chunk
run validate [] s = (s, none)
run validate (shutdown ∷ es) s = (s, some (ok tt))
run validate (read_error kind ∷ es) s = (s, some (err (Error.io kind)))
run validate (chunk rounds [] ∷ es) s = (s, some (ok tt))
run validate (chunk rounds (b ∷ bs) ∷ es) s =
    carry_on (run validate es) (read_chunk validate rounds (b ∷ bs) s)

-- `Connection::run`: the broker forgets the connection when its tasks have ended.
close : Session × Option Done → Broker
close (s, none) = s.broker
close (s, some done) = handle_connection_close s.reader.id s.broker

pub run_connection : ⦃w : Buf⦄ → (Bytes → Bool) → List Event → ℕ → PushSlot → Broker → Broker
unfolding close new
run_connection validate events id slot b =
    close (run validate events (record { reader = new id slot; broker = b }))
