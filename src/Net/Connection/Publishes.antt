-- ===== src/Net/Connection/Publishes.antt =====
-- A PUBLISH frame of a logged-in client in net/src/connection.rs: which publish of the broker it ends in.
use blipmq.Prelude.{
  ℕ, ◌^◌, ◌<◌, ◌≡◌, ◌≢◌, ◌⊎◌, refl, sym, subst, inl, inr, arith, ◌∙◌, ap, Bool, true, false, not,
  if-false, [], ◌∷◌, ◌++◌, length, none, some, Outcome, ok, err, panic, ◌>>=◌,
}
use blipmq.Wire.Buf.{Bytes, Buf}
use blipmq.Core.LogError.{LogError, QosLevel}
use blipmq.Core.WalEntry
use blipmq.Core.Broker.{Broker}
use blipmq.Core.Broker.PublishMethods.{publish_durable, publish_with_wal_id}
use blipmq.Core.Broker.PublishMethods.Durable.{Refused, entry_of, publish_durable-logged}
use blipmq.Net.Error.{encoded}
use blipmq.Net.Frame.{Frame, FrameType, FrameEncodeError}
use blipmq.Net.Payload.Publish.{PublishPayload}
use blipmq.Net.Payload.Publish as PublishCodec
use blipmq.Net.Payload.Publish.Total.{publish_decode-IsUtf8}
use blipmq.Net.Server.{FrameResponse, nacked, make_nack, validate_topic, qos_from_u8}
use blipmq.Net.Server.Cache.{PublishTopicCache}
use blipmq.Net.Server.Cache.Coherent.{IsCoherent}
use blipmq.Net.Server.Publish.{is_durable, durable_response, handle_publish_fast, handle_publish}
use blipmq.Net.Server.Publish.Routes.{
  published, handle_publish_fast-durable, handle_publish_fast-published, handle_publish-durable,
}
use blipmq.Net.Server.Handler.Routes.{handle_frame-publish}
use blipmq.Net.Connection.{
  Round, Session, Done, beside, send_inband, respond, by_handler, fall_through, process_publish,
  admitted, by_type, process_frame,
}

-- What a frame that is a well-formed publish is: its payload, and its quality of service.
pub record IsPublish ⦃w : Buf⦄ (f : Frame) (p : PublishPayload) (qos : QosLevel) : Type 0 where
  pub typed : f.msg_type ≡ FrameType.publish
  pub read : PublishCodec.decode f.payload ≡ ok p
  pub fine : validate_topic p.topic ≡ none
  pub level : qos_from_u8 p.qos ≡ some qos

-- The broker is `b`, and if the connection goes on, a NACK with the given correlation id went to the writer.
abbrev pub IsAnswered : ℕ → Session → Broker → Session × Done → Type 0
IsAnswered correlation_id s b (s', done) =
    (s'.broker ≡ b)
    × (done ≡ ok tt
        → (nack : Frame) × (nack.msg_type ≡ FrameType.nack)
          × (nack.correlation_id ≡ correlation_id)
          × (s'.reader.inband ≡ s.reader.inband ++ (nack ∷ [])))

module _ ⦃w : Buf⦄ (s : Session) (b : Broker) (correlation_id : ℕ) where
  send_inband-IsAnswered :
      (writer_open : Bool) (payload : Bytes)
      → IsAnswered correlation_id s b (
          beside b (
            send_inband writer_open
              (record {
                msg_type = FrameType.nack;
                correlation_id = correlation_id;
                payload = payload;
              })
              s.reader))
  unfolding send_inband
  send_inband-IsAnswered true payload = (refl, λ h. (_, refl, refl, refl))
  send_inband-IsAnswered false payload = (refl, λ h. absurd (ground arith))

  nacked-IsAnswered :
      (writer_open : Bool) (o : Outcome FrameEncodeError Bytes)
      → IsAnswered correlation_id s b (
          respond writer_open s.reader (
            b,
            (do
              nack ← (do
                payload ← encoded o
                ok (record {
                  msg_type = FrameType.nack;
                  correlation_id = correlation_id;
                  payload = payload;
                }))
              ok (FrameResponse.frame nack)),
          ))
  unfolding respond
  nacked-IsAnswered writer_open (ok payload) = send_inband-IsAnswered writer_open payload
  nacked-IsAnswered writer_open (err e) = (refl, λ h. absurd (ground arith))
  nacked-IsAnswered writer_open panic = (refl, λ h. absurd (ground arith))

  durable_response-IsAnswered :
      (round : Round) (out : Broker × Outcome LogError ℕ)
      → Refused b out
      → IsAnswered correlation_id s b
          (respond round.writer_open s.reader (durable_response round.world correlation_id out))
  unfolding durable_response nacked make_nack respond
  durable_response-IsAnswered round (c, ok id) r = absurd (r.1 id refl)
  durable_response-IsAnswered round (c, err e) r =
      subst
        (λ (d : Broker). IsAnswered correlation_id s b (
          respond round.writer_open s.reader
            (durable_response round.world correlation_id (d, err e))))
        (sym r.0) (nacked-IsAnswered round.writer_open _)
  durable_response-IsAnswered round (c, panic) r = (r.0, λ h. absurd (ground arith))

fine-length : (topic : Bytes) → validate_topic topic ≡ none → length topic < 2 ^ 16
unfolding validate_topic
fine-length topic fine = ground arith

module _ ⦃w : Buf⦄ (validate : Bytes → Bool) (round : Round) (f : Frame) (s : Session) where
  process_frame-publish :
      f.msg_type ≡ FrameType.publish
      → s.reader.authenticated ≡ true
      → process_frame validate round f s
        ≡ fall_through round s.reader
            (respond round.writer_open s.reader (handle_publish round.world f s.broker))
            (handle_publish_fast round.world f s.broker s.reader.topic_cache)
  unfolding process_frame by_type process_publish by_handler admitted
  process_frame-publish typed inside =
      ap (by_type validate round f s) typed
      ∙ if-false (not s.reader.authenticated) _ _ (ap not inside)
      ∙ ap
          (λ h.
            fall_through round s.reader (respond round.writer_open s.reader h)
              (handle_publish_fast round.world f s.broker s.reader.topic_cache))
          (handle_frame-publish round.world s.reader.id f s.broker typed)

  module _ (p : PublishPayload) (qos : QosLevel) (is : IsPublish f p qos)
      (inside : s.reader.authenticated ≡ true) where
    -- A well-formed PUBLISH frame of a logged-in client, which does not ask for durability or comes to a
    -- broker without a log, is published by `publish_inner` under its own topic and options, whatever
    -- the topic cache of the connection holds as long as its entries belong to one topic, and nothing is
    -- sent back. The entries of the cache belong to one topic afterwards. An empty partition key is one
    -- of its options.
    pub process_frame-published :
        IsCoherent s.reader.topic_cache
        → is_durable qos s.broker ≡ false
        → (cache : PublishTopicCache) × IsCoherent cache
          × (process_frame validate round f s ≡ (
            record {
              reader = record s.reader { topic_cache = cache };
              broker = published round.world p qos s.broker;
            },
            ok tt,
          ))
    unfolding fall_through
    process_frame-published coherent plain =
        let (cache, coherent', fast) =
          handle_publish_fast-published round.world f s.broker p qos is.read is.fine is.level
            s.reader.topic_cache coherent plain in
        (
          cache,
          coherent',
          process_frame-publish is.typed inside
              ∙ ap
                  (fall_through round s.reader
                    (respond round.writer_open s.reader (handle_publish round.world f s.broker)))
                  fast,
        )

    -- The fast path is passed by.
    process_frame-durable :
        is_durable qos s.broker ≡ true
        → process_frame validate round f s
          ≡ respond round.writer_open s.reader (
              durable_response round.world f.correlation_id (
                publish_durable round.world.append round.world.hash round.world.now p.topic
                  p.message qos s.broker))
    unfolding fall_through
    process_frame-durable lasting =
        process_frame-publish is.typed inside
        ∙ ap
            (fall_through round s.reader
              (respond round.writer_open s.reader (handle_publish round.world f s.broker)))
            (handle_publish_fast-durable round.world f s.broker p qos is.read is.fine is.level
              s.reader.topic_cache lasting)
        ∙ ap (respond round.writer_open s.reader)
            (handle_publish-durable round.world f s.broker p qos is.read is.fine is.level lasting)

    abbrev pub LoggedHere : Type 0
    LoggedHere =
        (bytes : Bytes) × (id : ℕ) × (WalEntry.decode bytes ≡ ok (entry_of p.topic p.message qos))
        × ((round.world.append bytes s.broker).1 ≡ ok id)
        × (process_frame validate round f s ≡ (
          record s {
            broker =
                publish_with_wal_id round.world.hash round.world.now p.topic p.message qos (some id)
                  none (round.world.append bytes s.broker).0;
          },
          ok tt,
        ))

    -- There is no log to write to, or it refused the message.
    abbrev pub AnsweredHere : Type 0
    AnsweredHere =
        (((s.broker.shutting_down ≡ true) ⊎ (s.broker.wal ≡ false))
          × IsAnswered f.correlation_id s s.broker (process_frame validate round f s))
        ⊎ ((bytes : Bytes) × (WalEntry.decode bytes ≡ ok (entry_of p.topic p.message qos))
            × ((id : ℕ) → (round.world.append bytes s.broker).1 ≢ ok id)
            × IsAnswered f.correlation_id s (round.world.append bytes s.broker).0
                (process_frame validate round f s))

    process_frame-IsAnswered :
        (b : Broker)
        → is_durable qos s.broker ≡ true
        → Refused b (
            publish_durable round.world.append round.world.hash round.world.now p.topic p.message
              qos s.broker)
        → IsAnswered f.correlation_id s b (process_frame validate round f s)
    process_frame-IsAnswered b lasting refused =
        subst (IsAnswered f.correlation_id s b) (sym (process_frame-durable lasting))
          (durable_response-IsAnswered s b f.correlation_id round _ refused)

    -- A well-formed PUBLISH frame of a logged-in client that asks for durability, at a broker with a log:
    -- either the log took bytes that read back as its topic, message and quality of service, the message
    -- is published under the id that the log gave, at the broker as it is when the log answers, and
    -- nothing is sent back; or the broker is shutting down or the log refused those bytes, the frame
    -- changes nothing of the broker, and if the connection goes on, a NACK with the frame's correlation
    -- id was sent to the writer.
    pub process_frame-logged : is_durable qos s.broker ≡ true → LoggedHere ⊎ AnsweredHere
    unfolding durable_response respond
    process_frame-logged lasting =
        elim (publish_durable-logged round.world.append round.world.hash round.world.now p.topic
          p.message qos s.broker (fine-length p.topic is.fine)
          (publish_decode-IsUtf8 f.payload is.read)) [
            | inl (bytes, id, entry, took, live, e) ↦ inl (
              bytes,
              id,
              entry,
              took,
              process_frame-durable lasting
                  ∙ ap
                      (λ out.
                        respond round.writer_open s.reader
                          (durable_response round.world f.correlation_id out))
                      e,
            )
            | inr (inl (why, refused)) ↦
                inr (inl (why, process_frame-IsAnswered s.broker lasting refused))
            | inr (inr (bytes, entry, failed, refused)) ↦ inr (
                inr (
                  bytes,
                  entry,
                  failed,
                  process_frame-IsAnswered (round.world.append bytes s.broker).0 lasting refused,
                ))
          ]
