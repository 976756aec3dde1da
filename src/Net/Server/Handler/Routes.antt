-- ===== src/Net/Server/Handler/Routes.antt =====
-- The dispatch on the type of a frame in `handle_frame` of net/src/server.rs.
use blipmq.Prelude.{ℕ, ◌≡◌, ap}
use blipmq.Wire.Buf.{Buf}
use blipmq.Core.Broker.{Broker}
use blipmq.Net.Frame.{Frame, FrameType}
use blipmq.Net.Server.{World}
use blipmq.Net.Server.Publish.{handle_publish}
use blipmq.Net.Server.Handler.{by_type, handle_frame}

pub handle_frame-publish :
    ⦃w : Buf⦄ (world : World) (conn_id : ℕ) (f : Frame) (b : Broker)
    → f.msg_type ≡ FrameType.publish
    → handle_frame world conn_id f b ≡ handle_publish world f b
unfolding handle_frame by_type
handle_frame-publish world conn_id f b typed = ap (by_type world conn_id f b) typed
