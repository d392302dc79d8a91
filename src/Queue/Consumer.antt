-- ===== src/Queue/Consumer.antt =====
-- internal/queue/consumer.go: what becomes of a delivery, and the consuming loop.
pub mod Stopping
use avatars.Prelude.{
  ℕ, String, Bool, true, false, ◌==◌, Option, none, some, List, [], ◌∷◌, add_one, Error, Failure,
  wrap, Result, ok, err, if◌then◌else◌,
}
use avatars.Handler.{Bytes}
use avatars.Storage.{Storage}
use avatars.Queue.{AvatarProcessMessage, queue_processing}
use avatars.Queue.Retry.{Table, PublishChannel, retry_count, send_to_retry}

pub record Delivery : Type 0 where
  pub body : Bytes
  pub message_id : String
  pub headers : Table

-- The acknowledgements of the delivery at hand: Ack(false) and Nack(false, requeue). The program
-- drops their errors.
pub record Acknowledger (W : Type 0) : Type 0 where
  pub ack : W → W
  pub nack : Bool → W → W

-- The consumer with what it calls; `unmarshal` is json.Unmarshal into AvatarProcessMessage, and
-- `handler` is the DeliveryHandler. Trace contexts are left out.
pub record Consumer (W : Type 0) : Type 0 where
  pub ch : PublishChannel W
  pub acks : Acknowledger W
  pub store : Storage W
  pub unmarshal : Bytes → Option AvatarProcessMessage
  pub handler : AvatarProcessMessage → Delivery → W → Error × W

-- `if msg.MessageID == "" { msg.MessageID = d.MessageId }`
unfoldable pub with_id : Delivery → AvatarProcessMessage → AvatarProcessMessage
with_id d msg = if msg.message_id == "" then record msg { message_id = d.message_id } else msg

module _ {W : Type 0} (c : Consumer W) where
  -- Idempotency
  unfoldable pub is_processed : String → W → Result Bool × W
  is_processed message_id = c.store.is_message_processed message_id

  unfoldable pub mark_processed : String → W → Error × W
  mark_processed message_id = c.store.mark_message_processed message_id

  marked : Error → W → W
  marked (some _) w = c.acks.nack true w
  marked none w = c.acks.ack w

  retried : Error → W → W
  retried (some _) w = c.acks.nack true w
  retried none w = c.acks.ack w

  handled : Delivery → AvatarProcessMessage → Error → W → W
  handled d msg (some _) w =
      let (e, w1) = send_to_retry c.ch d.body (add_one (retry_count d.headers)) w in retried e w1
  handled d msg none w = let (e, w1) = mark_processed msg.message_id w in marked e w1

  looked_up : Delivery → AvatarProcessMessage → Result Bool → W → W
  looked_up d msg (err _) w = c.acks.nack true w
  looked_up d msg (ok true) w = c.acks.ack w
  looked_up d msg (ok false) w = let (e, w1) = c.handler msg d w in handled d msg e w1

  decoded : Delivery → Option AvatarProcessMessage → W → W
  decoded d none w = c.acks.nack false w
  decoded d (some m) w =
      let msg = with_id d m in let (r, w1) = is_processed msg.message_id w in looked_up d msg r w1

  unfoldable pub handle_delivery : Delivery → W → W
  unfolding with_id is_processed mark_processed marked retried handled looked_up decoded
  handle_delivery d = decoded d (c.unmarshal d.body)

-- The channel's Qos(prefetch, 0, false) and Consume(queue, "avatars-worker", …).
pub record ConsumeChannel (W : Type 0) : Type 0 where
  pub qos : ℕ → W → Error × W
  pub consume : String → W → Error × W

-- What the select of the loop receives: ctx.Done() with ctx.Err(), a delivery, or the closing of the
-- deliveries.
pub data Event : Type 0 where
  done : Failure → Event
  delivered : Delivery → Event
  closed : Event

-- Consume has returned an error or nil, or waits for the next event.
pub data Status : Type 0 where
  returned : Error → Status
  waiting : Status

module _ {W : Type 0} (c : Consumer W) where
  unfoldable pub consume_loop : List Event → W → Status × W
  consume_loop [] w = (waiting, w)
  consume_loop (done e ∷ _) w = (returned (some e), w)
  consume_loop (closed ∷ _) w = (returned none, w)
  consume_loop (delivered d ∷ events) w = consume_loop events (handle_delivery c d w)

  consuming : Error → List Event → W → Status × W
  consuming (some e) events w = (returned (some (wrap "consume" e)), w)
  consuming none events w = consume_loop events w

  prefetched : ConsumeChannel W → Error → List Event → W → Status × W
  prefetched ch (some e) events w = (returned (some (wrap "qos" e)), w)
  prefetched ch none events w = let (e, w1) = ch.consume queue_processing w in consuming e events w1

  -- Consume, with the events that its loop receives.
  unfoldable pub consume : ConsumeChannel W → List Event → W → Status × W
  unfolding prefetched consuming consume_loop
  consume ch events w = let (e, w1) = ch.qos 1 w in prefetched ch e events w1
