-- ===== src/Wal/Writer/Run.antt =====
-- wal/src/lib.rs: the loop of the writer task, `run` with `collect_batch`, over what arrives in its
-- channel; `append_durable`, `append` and `flush` send there.
use blipmq.Prelude.{
  ℕ, Bool, true, false, ltb, List, [], ◌∷◌, ◌++◌, length, if◌then◌else◌, ok, err, panic,
}
use blipmq.Core.LogError.{text, backpressure, writer_stopped}
use blipmq.Wal.Record.{WalWriteRequest}
use blipmq.Wal.Writer.{WalWriter, FileSystem, Done, flush_file, and_then, write_batch}

pub data WalMessage : Type 0 where
  write : WalWriteRequest → WalMessage
  flush : WalMessage

-- `send_request`, on the messages that wait in the channel; it is closed when the writer has stopped.
unfoldable pub send_request : Bool → ℕ → WalWriteRequest → List WalMessage → List WalMessage × Done
send_request closed channel_capacity request queue =
    if closed
    then (queue, err writer_stopped)
    else if ltb (length queue) channel_capacity
    then (queue ++ (write request ∷ []), ok tt)
    else (queue, err (backpressure (text "wal channel full")))

-- The records behind the first one that wait, whether a flush ends them, and what is left.
unfoldable pub collect_batch : List WalMessage → List WalWriteRequest × Bool × List WalMessage
collect_batch [] = ([], false, [])
collect_batch (flush ∷ queue) = ([], true, queue)
collect_batch (write r ∷ queue) =
    let (records, pending_flush, rest) = collect_batch queue in (r ∷ records, pending_flush, rest)

-- The result of a flush goes to its caller; the loop goes on.
unfoldable pub flush_if : Bool → FileSystem → WalWriter → WalWriter × Done
flush_if true fs w = ((flush_file fs.synced fs.now w).0, ok tt)
flush_if false fs w = (w, ok tt)

-- What waits in the channel when the writer looks, and what the file system answers to the batch and to
-- the flush behind it.
pub record Turn : Type 0 where
  pub arrived : List WalMessage
  pub batch : FileSystem
  pub flushed : FileSystem

-- One message is received, with the records behind it.
unfoldable pub turn : Turn → List WalMessage → WalWriter → List WalMessage × (WalWriter × Done)
unfolding collect_batch flush_if
turn t [] w = ([], (w, ok tt))
turn t (flush ∷ queue) w = (queue, flush_if true t.flushed w)
turn t (write r ∷ queue) w =
    let (records, pending_flush, rest) = collect_batch queue in
    (rest, and_then (flush_if pending_flush t.flushed) (write_batch t.batch (r ∷ records) w))

unfoldable pub go_on :
    (List WalMessage → WalWriter → WalWriter × Done)
    → List WalMessage × (WalWriter × Done)
    → WalWriter × Done
go_on rest (queue, (w, ok _)) = rest queue w
go_on rest (queue, (w, err e)) = (w, err e)
go_on rest (queue, (w, panic)) = (w, panic)

-- The writer, and the error that stopped it.
unfoldable pub run : List Turn → List WalMessage → WalWriter → WalWriter × Done
unfolding turn go_on
run [] queue w = (w, ok tt)
run (t ∷ ts) queue w = go_on (run ts) (turn t (queue ++ t.arrived) w)
