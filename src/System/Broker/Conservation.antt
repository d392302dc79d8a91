-- ===== src/System/Broker/Conservation.antt =====
-- Whatever happens to the messages, none is lost and none is doubled.
use avatars.Prelude.{
  zero, suc, ℤ, pos, negsuc, not, add_one, lookup, insert, String, true, false, ◌≡◌, refl, ◌==◌,
  none, some, List, [], ◌∷◌, arith, if◌then◌else◌,
}
use avatars.Queue.Retry.{bare, int, retry_count, resolve_retry_target, send_to_retry}
use avatars.Queue.Topology.{declare, until_error}
use avatars.Queue.Consumer.{Consumer, Delivery, handle_delivery}
use avatars.Queue.Topology.Routes.{declared, queues_of, queue_after}
use avatars.Recording.Deliveries.{acts_of, was_acked, was_processed, ran_well, was_marked, was_sent}
use avatars.System.{delivery_of}
use avatars.System.Broker.{Broker, place_all, place_copies, is_done}

-- Where the copy of a message with this retry count goes.
unfoldable pub copy_queues : ℤ → List String
copy_queues n =
    let (queue_name, exchange, routing_key) = resolve_retry_target n in
    if not (queue_name == "")
    then queues_of declared "" queue_name
    else queues_of declared exchange routing_key

pub copy_queues-queue_after : (n : ℤ) → copy_queues n ≡ queue_after n ∷ []
unfolding copy_queues resolve_retry_target queues_of declare until_error lookup insert
copy_queues-queue_after (pos zero) = refl
copy_queues-queue_after (pos (suc zero)) = refl
copy_queues-queue_after (pos (suc (suc zero))) = refl
copy_queues-queue_after (pos (suc (suc (suc n)))) = refl
copy_queues-queue_after (negsuc n) = refl

module _ {W : Type 0} (c : Consumer W) (d : Delivery) (w : W) where
  pub was_sent-was_acked : was_sent (acts_of c d w) ≡ true → was_acked (acts_of c d w) ≡ true
  unfolding was_sent was_acked handle_delivery send_to_retry
  was_sent-was_acked h = ground arith

  -- A message of which a copy was sent is not done with, and an acknowledged one is one or the other.
  pub is_done-was_sent : was_sent (acts_of c d w) ≡ true → is_done (acts_of c d w) ≡ false
  unfolding was_sent was_processed ran_well was_marked handle_delivery send_to_retry
  is_done-was_sent h = ground arith

  abbrev pub copy : Delivery
  copy =
      delivery_of (elim (not ((resolve_retry_target (add_one (retry_count d.headers))).0 == "")) [
        | true ↦ bare d.body (some (("x-retry-count", int (add_one (retry_count d.headers))) ∷ []))
        | false ↦ bare d.body none
      ])

  pub place_copies-acts_of :
      (b : Broker)
      → place_copies (acts_of c d w) b ≡ (
          if was_sent (acts_of c d w)
          then place_all (copy_queues (add_one (retry_count d.headers))) copy b
          else b)
  unfolding place_copies was_sent handle_delivery send_to_retry copy_queues
  place_copies-acts_of b = ground arith
