-- ===== src/Recording/Retries.antt =====
-- Failing messages: consumer.go and retry.go together with the broker, which brings the copies that
-- the consumer publishes to its retry queues back to the processing queue.
use avatars.Prelude.{
  ℕ, eqb, ◌^◌, zero, suc, ◌+◌, ◌≤◌, ◌<◌, ℤ, pos, negsuc, ◌≡◌, ◌∙◌, refl, ap, String, true, false,
  not, true, ◌==◌, Option, none, some, [], ◌∷◌, arith, lookup, add_one, inl, inr, Bool-cases,
  if◌then◌else◌,
}
use avatars.Queue.Retry.{
  Table, Publishing, int, bare, retry_count, resolve_retry_target, send_to_retry,
}
use avatars.Queue.Consumer.{Consumer, Delivery, handle_delivery}
use avatars.Recording.{Acts, sent}
use avatars.Recording.Deliveries.{acts_of, was_requeued}

queue_copy : String → Publishing → Option Publishing
queue_copy exchange m = if exchange == "" then some m else none

-- The copy that was published to a queue by its name, that is, to the default exchange.
unfoldable pub copy_to_queue : Acts → Option Publishing
unfolding queue_copy
copy_to_queue [] = none
copy_to_queue (sent exchange _ m none ∷ _) = queue_copy exchange m
copy_to_queue (_ ∷ acts) = copy_to_queue acts

-- How many more times a message with this retry count can come back.
retries_left : ℤ → ℕ
retries_left (pos zero) = 2
retries_left (pos (suc zero)) = 1
retries_left _ = 0

-- A count has a retry queue or an exchange, never both; a queue comes with fewer retries left.
target_lem : (n : ℤ) → (((resolve_retry_target n).0 == "") ≡ not ((resolve_retry_target n).1 == ""))
unfolding resolve_retry_target
target_lem (pos zero) = refl
target_lem (pos (suc zero)) = refl
target_lem (pos (suc (suc zero))) = refl
target_lem (pos (suc (suc (suc n)))) = refl
target_lem (negsuc n) = refl

no_queue : (n : ℕ) → (resolve_retry_target (add_one (pos (suc (suc n))))).0 ≡ ""
unfolding resolve_retry_target add_one
no_queue n =
    let e : suc (suc n) + 1 ≡ suc (suc (suc n)) = omega arith in
    elim (Bool-cases (eqb (suc (suc n) + 1) (2 ^ 63))) [
      | inl wraps ↦ rw wraps
      | inr fits ↦ rw (fits, e)
    ]

retries_left-add_one :
    (n : ℤ)
    → ((resolve_retry_target (add_one n)).0 == "") ≡ false
    → retries_left (add_one n) < retries_left n
unfolding resolve_retry_target retries_left add_one
retries_left-add_one (pos zero) h = omega arith
retries_left-add_one (pos (suc zero)) h = omega arith
retries_left-add_one (pos (suc (suc n))) h = absurd (cc (rw (no_queue n) at h))
retries_left-add_one (negsuc zero) h = absurd (cc h)
retries_left-add_one (negsuc (suc n)) h = absurd (cc h)

-- The broker hands a copy back with its body; `carry` is what becomes of its headers on the way.
module _ {W : Type 0} (c : Consumer W) (carry : Table → Table) where
  -- A copy that goes to a queue has the body of the delivery, a count that is one more, and was due
  -- for less than two rounds before.
  copy_to_queue-bare :
      (d : Delivery) (w : W) (m : Publishing)
      → copy_to_queue (acts_of c d w) ≡ some m
      → (((resolve_retry_target (add_one (retry_count d.headers))).0 == "") ≡ false)
        × (m ≡ bare d.body (some (("x-retry-count", int (add_one (retry_count d.headers))) ∷ [])))
  unfolding copy_to_queue handle_delivery send_to_retry
  copy_to_queue-bare d w m h = ground (arith, target_lem (add_one (retry_count d.headers)))

  -- A delivery whose handling, in some state, publishes a copy to a queue, and the delivery of that
  -- copy.
  pub data Retried (d : Delivery) : Delivery → Type 0 where
    retried :
        (w : W) (m : Publishing)
        → copy_to_queue (acts_of c d w) ≡ some m
        → Retried d (record { body = m.body; message_id = m.message_id; headers = carry m.headers })

  -- The deliveries that come of one, the consumer in some state at each: a delivery that is requeued,
  -- because the broker did not take the copy or another call failed, comes again as it is, and a copy
  -- that a retry queue gives back is one retry more.
  pub data Retries (d : Delivery) : ℕ → Delivery → Type 0 where
    none_yet : Retries d 0 d
    once_more : {n : ℕ} {e f : Delivery} → Retries d n e → Retried e f → Retries d (suc n) f
    requeued :
        {n : ℕ} {e : Delivery} (w : W)
        → Retries d n e
        → was_requeued (acts_of c e w) ≡ true
        → Retries d n e

  -- What the broker documents of headers: they arrive as they were sent, but for their number type.
  module _ (carried : (headers : Table) → retry_count (carry headers) ≡ retry_count headers) where
    Retried_lem :
        {d e : Delivery}
        → Retried d e
        → (e.body ≡ d.body)
          × (e.message_id ≡ "")
          × (retries_left (retry_count e.headers) < retries_left (retry_count d.headers))
    Retried_lem {d} (retried w m h) =
        let (queued, same) = copy_to_queue-bare d w m h in
        let counted : retry_count (carry m.headers) ≡ add_one (retry_count d.headers) =
          carried m.headers
          ∙ ap (λ (x : Publishing). retry_count x.headers) same
          ∙ unfold retry_count lookup in refl in
        (
          ap (λ (x : Publishing). x.body) same,
          ap (λ (x : Publishing). x.message_id) same,
          rw counted (retries_left-add_one (retry_count d.headers) queued),
        )

    Retries-left :
        {d : Delivery} {n : ℕ} {e : Delivery}
        → Retries d n e
        → n + retries_left (retry_count e.headers) ≤ retries_left (retry_count d.headers)
    Retries-left none_yet = omega arith
    Retries-left (once_more before last) =
        let (_, _, fewer) = Retried_lem last in omega (arith, Retries-left before)
    Retries-left (requeued w before _) = Retries-left before

    retries_left-le : (n : ℤ) → retries_left n ≤ 2
    unfolding retries_left
    retries_left-le (pos zero) = omega arith
    retries_left-le (pos (suc zero)) = omega arith
    retries_left-le (pos (suc (suc n))) = omega arith
    retries_left-le (negsuc n) = omega arith

    -- Where headers arrive with the count that they were sent with, the retry queues bring a message
    -- back to the processing queue twice at most, whatever its first headers and in whatever states its
    -- deliveries are handled, however often a delivery is requeued in between. How often it is requeued
    -- is not bounded.
    pub Retries-le : {d : Delivery} {n : ℕ} {e : Delivery} → Retries d n e → n ≤ 2
    Retries-le {d} r = omega (arith, Retries-left r, retries_left-le (retry_count d.headers))

    retry_lem :
        {d : Delivery} {n : ℕ} {e : Delivery}
        → Retries d n e
        → (e.body ≡ d.body) × (1 ≤ n → e.message_id ≡ "")
    retry_lem none_yet = (refl, λ h. absurd (omega arith))
    retry_lem (once_more before last) =
        let (body, id, _) = Retried_lem last in (body ∙ (retry_lem before).0, λ _. id)
    retry_lem (requeued w before _) = retry_lem before

    -- Where headers arrive with the count that they were sent with, every retry has the body of the
    -- first delivery, and no message id beside it, however often deliveries are requeued in between.
    pub Retries-body :
        {d : Delivery} {n : ℕ} {e : Delivery}
        → Retries d (suc n) e
        → (e.body ≡ d.body) × (e.message_id ≡ "")
    Retries-body r = let (body, id) = retry_lem r in (body, id (omega arith))
