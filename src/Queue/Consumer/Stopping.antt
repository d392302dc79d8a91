-- ===== src/Queue/Consumer/Stopping.antt =====
-- When Consume of internal/queue/consumer.go returns, and what it has handled by then.
use avatars.Prelude.{◌≡◌, refl, Option, none, some, List, [], ◌∷◌, ◌++◌, arith, Error}
use avatars.Queue.{queue_processing}
use avatars.Queue.Consumer.{
  Delivery, Consumer, ConsumeChannel, Event, done, delivered, closed, returned, waiting,
  handle_delivery, consume_loop, consume,
}

-- What Consume returns at an event; a delivery is no end.
abbrev pub ends : Event → Option Error
ends (done e) = some (some e)
ends closed = some none
ends (delivered _) = none

abbrev pub all_delivered : List Delivery → List Event
all_delivered [] = []
all_delivered (d ∷ ds) = delivered d ∷ all_delivered ds

module _ {W : Type 0} (c : Consumer W) where
  -- One delivery after the other.
  abbrev pub handle_all : List Delivery → W → W
  handle_all [] w = w
  handle_all (d ∷ ds) w = handle_all ds (handle_delivery c d w)

  loop-waiting :
      (ds : List Delivery) (w : W)
      → consume_loop c (all_delivered ds) w ≡ (waiting, handle_all ds w)
  unfolding consume_loop
  loop-waiting [] w = refl
  loop-waiting (d ∷ ds) w = loop-waiting ds (handle_delivery c d w)

  loop-returned :
      (ds : List Delivery) (last : Event) (later : List Event) (e : Error) (w : W)
      → ends last ≡ some e
      → consume_loop c (all_delivered ds ++ last ∷ later) w ≡ (returned e, handle_all ds w)
  unfolding consume_loop
  loop-returned [] (done x) later e w h = ground arith
  loop-returned [] closed later e w h = ground arith
  loop-returned [] (delivered d) later e w h = ground arith
  loop-returned (d ∷ ds) last later e w h = loop-returned ds last later e (handle_delivery c d w) h

  module _ (ch : ConsumeChannel W) (w : W) where
    -- The state behind the two calls that set the channel up.
    abbrev pub set_up : W
    set_up = (ch.consume queue_processing (ch.qos 1 w).1).1

    -- Once the channel is set up, Consume returns at the first event that is a cancelled context or the
    -- end of the deliveries, with the context's error or nil, and has then handled the deliveries
    -- before it, each once and in their order, whatever comes after; until such an event comes it has
    -- handled what was delivered and waits.
    pub consume-returned :
        (ds : List Delivery) (last : Event) (later : List Event) (e : Error)
        → (ch.qos 1 w).0 ≡ none
        → (ch.consume queue_processing (ch.qos 1 w).1).0 ≡ none
        → ends last ≡ some e
        → (consume c ch (all_delivered ds ++ last ∷ later) w ≡ (returned e, handle_all ds set_up))
          × (consume c ch (all_delivered ds) w ≡ (waiting, handle_all ds set_up))
    unfolding consume
    consume-returned ds last later e set consuming h = (
      ground (arith, loop-returned ds last later e set_up h),
      ground (arith, loop-waiting ds set_up),
    )
