-- ===== src/Lib.antt =====
-- A model of blipmq, a message broker: net/src/frame.rs is its wire protocol, core/src/lib.rs its
-- broker with subject patterns, subscriber queues and the records of the write-ahead log, and
-- wal/src/lib.rs the log itself. A connection reads frames, decodes their payloads and calls the
-- broker; the broker matches a subject against the patterns of the subscriptions, puts the message
-- into the queue of each subscriber, and writes messages and acknowledgements to the log.
--
-- Prelude: what the modules share. Prelude/Tests has Boolean tests, Prelude/Lists the lists and
--   Prelude/Calls the result of a call, `Outcome`: a value, an error, or a panic. A theorem that a
--   function `Returns` says that it does not panic.
-- Wire: bytes. A byte is a number, a `Bytes`, a `BytesMut` or a string the list of its bytes. The
--   `bytes` crate is not part of the repository: Wire/Buf is the interface of its `put_u16` to
--   `get_u64` with the laws the code relies on, an instance argument of every codec, and
--   Wire/BigEndian is an implementation on the bytes of a number, with which the tests run the
--   codecs. Wire/Text has the strings of the code as bytes, with the digits of a number.
--   Wire/Cursor has the readers on a slice, which panic when bytes are missing, and
--   Wire/Utf8 the standard library's check of UTF-8 as an automaton.
-- Net/Frame: net/src/frame.rs, `encode_frame`, `encode_deliver_frame` and `try_decode_frame`. A
--   buffer that the code changes is an argument and a result. Net/Payload has one module for each
--   payload type with its `encode` and `decode`.
-- Net/Server: `BrokerHandler` of net/src/server.rs. A handler returns the broker and its answer. What
--   the rest of the program gives to it is a `World`: the clock, the hash of a partition key, the
--   log's `append_durable` and `iterate_from`, and the text of the log's errors. Net/Server/Cache is
--   `PublishTopicCache`, Net/Server/Publish, Subscribe and Handler have the handlers, and the modules
--   named Total and Routes what holds of them. Net/Error is net/src/error.rs.
-- Net/Connection: the reader of net/src/connection.rs, its state next to the broker, `process_frame`,
--   the loop over the read buffer, and `run` over the events that wake it: a shutdown, a failed read,
--   or bytes. A frame is processed in a `Round`: its `World`, and whether the writer's channel is
--   open. The sleeps before a NACK are summed up in the state. The loop over the buffer runs on fuel,
--   one more than the buffer has bytes: each frame takes some. Net/Connection/Reader has the reader's
--   state with `handle_hello` and `handle_auth`, Net/Connection/Keeps has what holds after any bytes,
--   Net/Connection/Publishes which publish a PUBLISH frame ends in, and Net/Connection/Encoder is
--   `make_deliver_encoder`.
-- Auth: auth/src/lib.rs, a set of keys as a list.
-- Core/Subject: `SubjectPattern` and `exact_subject_from_pattern` of core/src/lib.rs. An index out
--   of range is `none`.
-- Core/WalEntry: `WalEntry`, `WalMessageRecord` and `WalAckRecord` of core/src/lib.rs; Core/LogError
--   its error type, `WalError` of wal/src/lib.rs.
-- Core/Queue: `SubscriberQueue` of core/src/lib.rs, one function for each method; the clock is an
--   argument. Core/Queue/Maintenance is `maintenance_tick`. Core/TagMap is the standard `HashMap`
--   by tag. Core/Queue/Valid is the invariant of the queue; Core/Queue/Fifo sees it as the list of
--   its waiting messages.
-- Core/Checkpoint: `CheckpointSnapshot` of core/src/lib.rs, the state of the consumers that a restart
--   reads. Wire/Crc32 is the interface of the `crc32fast` crate.
-- Core/Broker: `Broker` of core/src/lib.rs, its state and one function for each method that changes
--   it; Core/Config is `BrokerConfig`, Core/Subscriber a `Subscriber` with the delivery of one message
--   to it, Core/NameMap the standard `HashMap` by a string. Core/Broker/Subscribe, Unsubscribe,
--   Publish, PublishMethods, Ack, Replay, OffsetReplay and Maintain hold its methods. A subscriber
--   that several tables refer to is written as its id, and stands once in `store`. A push
--   slot is the address of its buffer, which the subscriptions of a connection share, and its bytes
--   stand in the broker's `buffers`; `swap_buffer` is what the connection's writer does to it. The sharded maps
--   are one map each, and the iteration order of a map is the order of its list. The time, the hash of
--   a partition key, the encoder of a push slot, the room in a channel and the log's `append_durable`
--   and `iterate_from` are arguments. Core/Broker/Registry is the invariant of the tables, and
--   Core/Broker/Reachable the relation of one call and the runs of calls from a new broker.
-- Wal/Record: the records of wal/src/lib.rs, `build_request`, the layout of `write_batch`, and the
--   scan `rebuild_segment_index` with `read_next_record_with_offset`; Wal/Header the header of a
--   segment. A file is its bytes. The scan runs on fuel, one more than the file has bytes: each round
--   takes at least the header of a record. Wal/Iterate is `iterate_from`, on fuel in the same way.
--   Wal/Compact is `compact_below` over the index and the directory of segments, and
--   Core/Broker/Compaction its use with a snapshot of the broker, as blipmqd/src/main.rs does it.
-- Wal/Writer: `WalWriter` of wal/src/lib.rs, with each segment as a read sees it and the bytes of it
--   that are sure to stand on the disk, if the directory still has its entry; what the file system answers to the calls of a batch is a `FileSystem`. Wal/Writer/Run is
--   the loop of the writer task over what arrives in its channel, one `Turn` for each message that it
--   waits for. Wal/Writer/Layout, Durable and Batches have what holds of it. Wal/Open is
--   `open_with_config`, over the segments of the directory with their bytes.
-- Tests, Core/Queue/Tests: runs on concrete inputs.
--
-- Machine integers: a `usize` and a `u64` are below 2 ^ 64; where a field of the wire is narrower
-- than the number written to it, the theorem asks that it fits. The codecs, the matching of
-- patterns and the loops of the queue are structural recursion, so that no fuel is needed but in the
-- loops over a segment and over a read buffer. An `Instant` does not overflow, and
-- tags do not wrap: that takes 2 ^ 64 messages for one subscriber; the ids of subscriptions do not
-- wrap either. The tags of a queue are the ones that its own counter gives out: `register_push_inflight`
-- is modelled, and the invariant is stated for the methods of the poll path.
--
-- Not modelled: the shards of the broker's maps and counters, its latency histogram and the waiting of
-- `wait_for_drain`, the names of the segment files, the turns of a connection's writer task, the listener with
-- its sockets and TLS, the configuration file, the metrics, the daemon, and the benchmarks. A method of
-- the broker is one step: what two threads do between the locks of one method is not interleaved. Only
-- `publish_durable` awaits the log, and goes on with the broker as the others have left it by then.
pub mod Prelude
pub mod Wire
pub mod Net
pub mod Core
pub mod Wal
pub mod Auth
pub mod Tests
