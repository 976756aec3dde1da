-- ===== src/Net/Server/Subscribe.antt =====
-- net/src/server.rs: the handlers of a SUBSCRIBE frame, `handle_subscribe_slot`, which every
-- connection uses, `handle_subscribe_push` and `handle_subscribe`.
pub mod Total
use blipmq.Prelude.{
  ℕ, ◌==◌, Option, none, some, ◌++◌, length, if◌then◌else◌, Outcome, ok, err, panic, bit_and,
}
use blipmq.Wire.Buf.{Bytes, Buf}
use blipmq.Wire.Text.{literal, decimal}
use blipmq.Core.LogError.{LogError, QosLevel}
use blipmq.Core.Subscriber.{PushSlot, PushSender}
use blipmq.Core.Broker.{Broker}
use blipmq.Core.Broker.Subscribe.{
  subscribe, subscribe_with_conn, subscribe_with_slot, subscribe_with_slot_in_group,
}
use blipmq.Core.Broker.OffsetReplay.{replay_to_subscriber}
use blipmq.Net.Frame.{Frame}
use blipmq.Net.Payload.Subscribe.{SubscribePayload, subscribe_qos_mask}
use blipmq.Net.Payload.Subscribe as SubscribeCodec
use blipmq.Net.Server.{World, Handled, nacked, acked, checked, decoded}

-- `format!("conn-{conn_id}")`
unfoldable pub client_id_of : ℕ → Bytes
client_id_of conn_id = literal "conn-" ++ decimal conn_id

-- `SubscribePayload::qos_level`
abbrev pub qos_level : SubscribePayload → ℕ
qos_level p = bit_and p.qos subscribe_qos_mask

-- The answer behind the replay: an error of the log is only written to the program's log.
answer : ⦃w : Buf⦄ → ℕ → ℕ → Broker × Outcome LogError ℕ → Handled
answer correlation_id sub_id (b, ok n) = (b, acked correlation_id sub_id)
answer correlation_id sub_id (b, err e) = (b, acked correlation_id sub_id)
answer correlation_id sub_id (b, panic) = (b, panic)

-- `if let Some(offset) = from_offset`, and the answer.
unfoldable pub replay_from : ⦃w : Buf⦄ → World → ℕ → Option ℕ → Broker × ℕ → Handled
unfolding answer
replay_from world correlation_id none (b, sub_id) = (b, acked correlation_id sub_id)
replay_from world correlation_id (some offset) (b, sub_id) =
    answer correlation_id sub_id (replay_to_subscriber world.iterate world.now sub_id offset b)

subscribe_grouped :
    ⦃w : Buf⦄
    → World
    → ℕ
    → ℕ
    → PushSlot
    → SubscribePayload
    → Broker
    → QosLevel
    → Option Bytes
    → Handled
unfolding replay_from
subscribe_grouped world conn_id correlation_id slot p b qos none =
    replay_from world correlation_id p.from_offset
      (subscribe_with_slot (client_id_of conn_id) p.topic qos conn_id slot b)
subscribe_grouped world conn_id correlation_id slot p b qos (some group) =
    if length group == 0
    then (b, nacked correlation_id 400 (literal "empty consumer group name"))
    else replay_from world correlation_id p.from_offset
        (subscribe_with_slot_in_group (client_id_of conn_id) p.topic qos conn_id slot group b)

subscribe_slot :
    ⦃w : Buf⦄ → World → ℕ → ℕ → PushSlot → SubscribePayload → Broker → QosLevel → Handled
unfolding subscribe_grouped
subscribe_slot world conn_id correlation_id slot p b qos =
    subscribe_grouped world conn_id correlation_id slot p b qos p.group

-- The decoding of the payload, which the three handlers share.
with_payload : ⦃w : Buf⦄ → Frame → Broker → (SubscribePayload → Handled) → Handled
with_payload frame b rest =
    decoded (SubscribeCodec.decode frame.payload)
      (b, nacked frame.correlation_id 400 (literal "invalid SUBSCRIBE payload")) (b, panic) rest

pub handle_subscribe_slot : ⦃w : Buf⦄ → World → ℕ → Frame → PushSlot → Broker → Handled
unfolding with_payload subscribe_slot
handle_subscribe_slot world conn_id frame slot b = with_payload frame b λ p.
    checked (λ code reason. (b, nacked frame.correlation_id code reason)) p.topic (qos_level p)
      (subscribe_slot world conn_id frame.correlation_id slot p b)

-- The ACK for the id of the new subscription.
acknowledge : ⦃w : Buf⦄ → ℕ → Broker × ℕ → Handled
acknowledge correlation_id (b, sub_id) = (b, acked correlation_id sub_id)

pub handle_subscribe_push : ⦃w : Buf⦄ → ℕ → Frame → PushSender → Broker → Handled
unfolding with_payload acknowledge
handle_subscribe_push conn_id frame push_tx b = with_payload frame b λ p.
    checked (λ code reason. (b, nacked frame.correlation_id code reason)) p.topic p.qos
      λ qos.
        acknowledge frame.correlation_id
          (subscribe_with_conn (client_id_of conn_id) p.topic qos conn_id push_tx b)

pub handle_subscribe : ⦃w : Buf⦄ → ℕ → Frame → Broker → Handled
unfolding with_payload acknowledge
handle_subscribe conn_id frame b = with_payload frame b λ p.
    checked (λ code reason. (b, nacked frame.correlation_id code reason)) p.topic p.qos
      λ qos. acknowledge frame.correlation_id (subscribe (client_id_of conn_id) p.topic qos b)
