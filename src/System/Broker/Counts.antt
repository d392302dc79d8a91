-- ===== src/System/Broker/Counts.antt =====
-- How the steps of the broker change the number of its messages.
use avatars.Prelude.{
  suc, ◌+◌, ◌||◌, String, Bool, true, ◌≡◌, ◌∙◌, refl, ◌==◌, List, [], ◌∷◌, ◌++◌, arith, length,
}
use avatars.Queue.{queue_processing, queue_retry_30s, queue_retry_2m, queue_dlq}
use avatars.Queue.Consumer.{Delivery}
use avatars.System.Broker.{Broker, place, place_all, total}

length-append : (xs ys : List Delivery) → length (xs ++ ys) ≡ length xs + length ys
length-append [] ys = omega arith
length-append (x ∷ xs) ys = ground (arith, length-append xs ys)

-- A queue that Declare declares.
abbrev pub is_declared : String → Bool
is_declared queue =
    queue == queue_processing
    || queue == queue_retry_30s
    || queue == queue_retry_2m
    || queue == queue_dlq

pub place-total :
    (queue : String) (d : Delivery) (b : Broker)
    → is_declared queue ≡ true
    → total (place queue d b) ≡ total b + 1
unfolding place total
place-total queue d b h = ground (
  arith,
  length-append b.processing (d ∷ []),
  length-append b.retry_30s (d ∷ []),
  length-append b.retry_2m (d ∷ []),
  length-append b.dead (d ∷ []),
)

pub finished-total : (b : Broker) → total (record b { finished = suc b.finished }) ≡ total b + 1
unfolding total
finished-total b = omega arith

pub place_all-total :
    (queue : String) (d : Delivery) (b : Broker)
    → is_declared queue ≡ true
    → total (place_all (queue ∷ []) d b) ≡ total b + 1
unfolding place_all
place_all-total queue d b h = place-total queue d b h

pub published-place :
    (queue : String) (d : Delivery) (b : Broker) → (place queue d b).published ≡ b.published
unfolding place
published-place queue d b = ground arith

pub published-place_all :
    (queues : List String) (d : Delivery) (b : Broker)
    → (place_all queues d b).published ≡ b.published
unfolding place_all
published-place_all [] d b = refl
published-place_all (queue ∷ queues) d b =
    published-place_all queues d (place queue d b) ∙ published-place queue d b

pub total_published : (b : Broker) → total (record b { published = suc b.published }) ≡ total b
unfolding total
total_published b = refl

pub total_first :
    (b : Broker) (d : Delivery) (rest : List Delivery)
    → (b.processing ≡ d ∷ rest → total (record b { processing = rest }) + 1 ≡ total b)
      × (b.retry_30s ≡ d ∷ rest → total (record b { retry_30s = rest }) + 1 ≡ total b)
      × (b.retry_2m ≡ d ∷ rest → total (record b { retry_2m = rest }) + 1 ≡ total b)
unfolding total
total_first b d rest = (λ e. rw e (omega arith), λ e. rw e (omega arith), λ e. rw e (omega arith))
