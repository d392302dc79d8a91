-- ===== src/System/Broker.antt =====
-- Messages on their way through the queues: the broker by the routes of Declare, and the consumer by
-- the calls of handleDelivery.
pub mod Counts
pub mod Conservation
pub mod DeadLetters
use avatars.Prelude.{
  ℕ, zero, suc, ◌+◌, ℤ, pos, negsuc, not, ◌||◌, ◌&&◌, add_one, lookup, insert, String, Bool, true,
  false, ◌≡◌, ◌∙◌, refl, ◌==◌, none, some, List, [], ◌∷◌, ◌++◌, arith, length, if◌then◌else◌,
}
use avatars.Queue.{queue_processing, queue_retry_30s, queue_retry_2m, queue_dlq}
use avatars.Queue.Retry.{Publishing, bare, int, retry_count, resolve_retry_target, send_to_retry}
use avatars.Queue.Topology.{declare, until_error}
use avatars.Queue.Consumer.{Consumer, Delivery, handle_delivery}
use avatars.Queue.Topology.Routes.{declared, queues_of, dead_letter, queue_after}
use avatars.Recording.{Acts, sent}
use avatars.Recording.Deliveries.{
  acts_of, was_acked, was_dropped, was_processed, ran_well, was_marked, was_sent,
}
use avatars.System.{delivery_of}

-- The messages in each queue, and how many were published and how many are done with.
pub record Broker : Type 0 where
  pub processing : List Delivery
  pub retry_30s : List Delivery
  pub retry_2m : List Delivery
  pub dead : List Delivery
  pub published : ℕ
  pub finished : ℕ

-- A message at the end of a queue; a queue that was not declared does not keep it.
unfoldable pub place : String → Delivery → Broker → Broker
place queue d b =
    if queue == queue_processing
    then record b { processing = b.processing ++ d ∷ [] }
    else if queue == queue_retry_30s
    then record b { retry_30s = b.retry_30s ++ d ∷ [] }
    else if queue == queue_retry_2m
    then record b { retry_2m = b.retry_2m ++ d ∷ [] }
    else if queue == queue_dlq
    then record b { dead = b.dead ++ d ∷ [] }
    else b

unfoldable pub place_all : List String → Delivery → Broker → Broker
place_all [] d b = b
place_all (queue ∷ queues) d b = place_all queues d (place queue d b)

-- The copies that the broker took, each in the queues that its exchange and key lead to.
unfoldable pub place_copies : Acts → Broker → Broker
place_copies [] b = b
place_copies (sent exchange key m none ∷ acts) b =
    place_copies acts (place_all (queues_of declared exchange key) (delivery_of m) b)
place_copies (_ ∷ acts) b = place_copies acts b

-- The message was done with: it had been processed before, or its handler succeeded and it was marked.
abbrev pub is_done : Acts → Bool
is_done acts = was_processed acts || ran_well acts && was_marked acts

-- What the broker makes of the calls of handleDelivery: an acknowledged message is gone, a refused one
-- is dead-lettered, and any other is put back. Of the acknowledged ones only those that are done with
-- are counted as finished.
unfoldable pub settle : Acts → Delivery → Broker → Broker
settle acts d b =
    let b1 = place_copies acts b in
    if was_acked acts
    then (if is_done acts then record b1 { finished = suc b1.finished } else b1)
    else if was_dropped acts
    then place_all (dead_letter declared queue_processing) d b1
    else place queue_processing d b1

-- Every message that was published is in one queue, or done with.
pub total : Broker → ℕ
total b = length b.processing + length b.retry_30s + length b.retry_2m + length b.dead + b.finished

-- One step: an upload's message is published, the consumer handles the first message of the queue in
-- some state of its environment, or a message's time in a retry queue is over.
pub data Step {W : Type 0} (c : Consumer W) (b : Broker) : Broker → Type 0 where
  published :
      (d : Delivery)
      → Step c b (place queue_processing d (record b { published = suc b.published }))
  delivered :
      (w : W) (d : Delivery) (rest : List Delivery)
      → b.processing ≡ d ∷ rest
      → Step c b (settle (acts_of c d w) d (record b { processing = rest }))
  expired_30s :
      (d : Delivery) (rest : List Delivery)
      → b.retry_30s ≡ d ∷ rest
      → Step c b
          (place_all (dead_letter declared queue_retry_30s) d (record b { retry_30s = rest }))
  expired_2m :
      (d : Delivery) (rest : List Delivery)
      → b.retry_2m ≡ d ∷ rest
      → Step c b (place_all (dead_letter declared queue_retry_2m) d (record b { retry_2m = rest }))

pub data Reach {W : Type 0} (c : Consumer W) : Broker → Type 0 where
  start : Reach c (record {
    processing = [];
    retry_30s = [];
    retry_2m = [];
    dead = [];
    published = 0;
    finished = 0;
  })
  next : {b b' : Broker} → Reach c b → Step c b b' → Reach c b'
