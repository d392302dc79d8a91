-- ===== src/Recording/Deliveries.antt =====
-- handleDelivery of internal/queue/consumer.go in any environment: how a delivery is settled, and why.
use avatars.Prelude.{
  ℕ, suc, ◌+◌, ◌≤◌, ◌≡◌, ◌↔◌, Bool, true, false, ◌&&◌, ◌||◌, none, [], ◌∷◌, arith, ok,
}
use avatars.Queue.Consumer.{Consumer, Delivery, handle_delivery}
use avatars.Queue.Retry.{send_to_retry}
use avatars.Recording.{Act, Acts, acked, nacked, ran, marked, sent, looked_up, recorded_consumer}

is_settlement : Act → Bool
is_settlement acked = true
is_settlement (nacked _) = true
is_settlement _ = false

-- How often the delivery was acknowledged, either way.
unfoldable pub settlements : Acts → ℕ
unfolding is_settlement
settlements [] = 0
settlements (a ∷ acts) = (elim (is_settlement a) [ true ↦ 1 | false ↦ 0 ]) + settlements acts

-- The message was found in the table of processed messages.
unfoldable pub was_processed : Acts → Bool
was_processed [] = false
was_processed (looked_up _ (ok true) ∷ _) = true
was_processed (_ ∷ acts) = was_processed acts

-- The handler ran and returned nil.
unfoldable pub ran_well : Acts → Bool
ran_well [] = false
ran_well (ran _ none ∷ _) = true
ran_well (_ ∷ acts) = ran_well acts

-- How often the handler ran.
unfoldable pub runs : Acts → ℕ
runs [] = 0
runs (ran _ _ ∷ acts) = suc (runs acts)
runs (_ ∷ acts) = runs acts

-- The message was written to the table of processed messages.
unfoldable pub was_marked : Acts → Bool
was_marked [] = false
was_marked (marked _ none ∷ _) = true
was_marked (_ ∷ acts) = was_marked acts

-- A copy was published, and the broker took it.
unfoldable pub was_sent : Acts → Bool
was_sent [] = false
was_sent (sent _ _ _ none ∷ _) = true
was_sent (_ ∷ acts) = was_sent acts

unfoldable pub was_acked : Acts → Bool
was_acked [] = false
was_acked (acked ∷ _) = true
was_acked (_ ∷ acts) = was_acked acts

unfoldable pub was_requeued : Acts → Bool
was_requeued [] = false
was_requeued (nacked true ∷ _) = true
was_requeued (_ ∷ acts) = was_requeued acts

-- The delivery was refused for good: Nack without requeueing.
unfoldable pub was_dropped : Acts → Bool
was_dropped [] = false
was_dropped (nacked false ∷ _) = true
was_dropped (_ ∷ acts) = was_dropped acts

module _ {W : Type 0} (c : Consumer W) (d : Delivery) (w : W) where
  -- The calls that handleDelivery makes.
  abbrev pub acts_of : Acts
  acts_of = (handle_delivery (recorded_consumer c) d (w, [])).1

  -- Every delivery is settled exactly once, and its handler runs once at most.
  pub handle_delivery-settlements : (settlements acts_of ≡ 1) × (runs acts_of ≤ 1)
  unfolding handle_delivery settlements runs send_to_retry
  handle_delivery-settlements = ground arith

  -- An acknowledgement has a reason among the calls.
  pub was_acked-reasons :
      was_acked acts_of
      ≡ (was_processed acts_of || ran_well acts_of && was_marked acts_of || was_sent acts_of)
  unfolding handle_delivery was_acked was_processed ran_well was_marked was_sent send_to_retry
  was_acked-reasons = ground arith

  -- A delivery is dropped exactly when its body does not decode; one that is neither acknowledged nor
  -- dropped goes back to its queue.
  pub was_dropped_iff :
      ((was_dropped acts_of ≡ true) ↔ (c.unmarshal d.body ≡ none))
      × (was_acked acts_of ≡ false → was_dropped acts_of ≡ false → was_requeued acts_of ≡ true)
  unfolding handle_delivery was_acked was_dropped was_requeued send_to_retry
  was_dropped_iff = ground arith
