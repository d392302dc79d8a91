-- ===== src/System/Broker/DeadLetters.antt =====
-- A message whose handling always fails, on its way through the queues.
use avatars.Prelude.{
  pos, add_one, String, true, false, not, ◌==◌, ◌≡◌, ◌∙◌, refl, ap, none, some, List, [], ◌∷◌,
  arith, Failure, ok, lookup, insert, ℤ,
}
use avatars.Handler.{Bytes}
use avatars.Queue.{
  AvatarProcessMessage, queue_processing, queue_retry_30s, queue_retry_2m, queue_dlq,
}
use avatars.Queue.Retry.{Publishing, bare, int, retry_count, resolve_retry_target, send_to_retry}
use avatars.Queue.Topology.{declare, until_error}
use avatars.Queue.Topology.Routes.{declared, queues_of, dead_letter, queue_after}
use avatars.Queue.Consumer.{Consumer, Delivery, with_id, handle_delivery}
use avatars.Recording.Deliveries.{acts_of, was_sent}
use avatars.System.{delivery_of}
use avatars.System.Broker.Conservation.{
  was_sent-was_acked, is_done-was_sent, place_copies-acts_of, copy_queues-queue_after, copy,
}
use avatars.System.Broker.{
  Broker, place, place_all, place_copies, settle, Step, Reach, next, delivered,
}
use avatars.System.Broker as Steps

module _ {W : Type 0} (c : Consumer W) where
  -- The message of a body decodes, is never found processed, and its handling always fails, while the
  -- broker takes every copy.
  pub record IsHopeless (body : Bytes) : Type 0 where
    pub message : AvatarProcessMessage
    pub decodes : c.unmarshal body ≡ some message
    pub is_new : (id : String) (w : W) → (c.store.is_message_processed id w).0 ≡ ok false
    pub fails :
        (msg : AvatarProcessMessage) (d : Delivery) (w : W)
        → (e : Failure) × ((c.handler msg d w).0 ≡ some e)
    pub is_taken :
        (exchange key : String) (m : Publishing) (w : W) → (c.ch.publish exchange key m w).0 ≡ none

  module _ (d : Delivery) (h : IsHopeless d.body) (w : W) where
    was_sent-hopeless : was_sent (acts_of c d w) ≡ true
    unfolding was_sent handle_delivery send_to_retry
    was_sent-hopeless =
        let msg = with_id d h.message in
        let w1 = (c.store.is_message_processed msg.message_id w).1 in
        let n = add_one (retry_count d.headers) in
        let target = resolve_retry_target n in
        let w2 = (c.handler msg d w1).1 in
        ground (
          arith,
          h.decodes,
          h.is_new msg.message_id w,
          (h.fails msg d w1).1,
          h.is_taken "" target.0 (bare d.body (some (("x-retry-count", int n) ∷ []))) w2,
          h.is_taken target.1 target.2 (bare d.body none) w2,
        )

    -- A delivery is acknowledged for a copy in the next queue.
    settle-hopeless :
        (b : Broker)
        → settle (acts_of c d w) d b
          ≡ place (queue_after (add_one (retry_count d.headers))) (copy c d w) b
    unfolding settle place_all
    settle-hopeless b = ground (
      arith,
      was_sent-hopeless,
      was_sent-was_acked c d w was_sent-hopeless,
      is_done-was_sent c d w was_sent-hopeless,
      place_copies-acts_of c d w b,
      copy_queues-queue_after (add_one (retry_count d.headers)),
    )

  -- The next step of a broker to which nothing is published: the first message of the processing queue
  -- is delivered, in the state `w` of the consumer's environment, or else the first message of a retry
  -- queue expires.
  abbrev pub turn : W → Broker → Broker
  turn w b = elim b.processing [
    | d ∷ rest ↦ settle (acts_of c d w) d (record b { processing = rest })
    | [] ↦ (elim b.retry_30s [
      | d ∷ rest ↦
          place_all (dead_letter declared queue_retry_30s) d (record b { retry_30s = rest })
      | [] ↦ (elim b.retry_2m [
        | d ∷ rest ↦
            place_all (dead_letter declared queue_retry_2m) d (record b { retry_2m = rest })
        | [] ↦ b
      ])
    ])
  ]

  abbrev broker : List Delivery → List Delivery → List Delivery → Broker → Broker
  broker processing short long b = record b {
    processing = processing;
    retry_30s = short;
    retry_2m = long;
  }

  turn-Reach_lists :
      (w : W) (processing short long : List Delivery) (b : Broker)
      → Reach c (broker processing short long b)
      → Reach c (turn w (broker processing short long b))
  turn-Reach_lists w (d ∷ rest) short long b before = next before (delivered w d rest refl)
  turn-Reach_lists w [] (d ∷ rest) long b before = next before (Steps.expired_30s d rest refl)
  turn-Reach_lists w [] [] (d ∷ rest) b before = next before (Steps.expired_2m d rest refl)
  turn-Reach_lists w [] [] [] b before = before

  -- A turn is a step of the broker, or there is nothing to do.
  pub turn-Reach : (w : W) (b : Broker) → Reach c b → Reach c (turn w b)
  turn-Reach w b before = turn-Reach_lists w b.processing b.retry_30s b.retry_2m b before

  abbrev pub turns : List W → Broker → Broker
  turns [] b = b
  turns (w ∷ ws) b = turns ws (turn w b)

-- One message has been published, and is in this queue alone.
abbrev none_at : Broker
none_at = record {
  processing = [];
  retry_30s = [];
  retry_2m = [];
  dead = [];
  published = 1;
  finished = 0;
}

abbrev pub alone : String → Delivery → Broker
alone queue d = place queue d none_at

-- A copy with this count, and the copy for the dead letters.
abbrev counted : Bytes → ℤ → Delivery
counted body n = record {
  body = body;
  message_id = "";
  headers = some (("x-retry-count", int n) ∷ []);
}

abbrev pub dead_copy : Bytes → Delivery
dead_copy body = record { body = body; message_id = ""; headers = none }

module _ {W : Type 0} (c : Consumer W) where
  -- Where a message is whose count has become one more than this.
  abbrev after_failure : Bytes → ℤ → Broker
  after_failure body count =
      let n = add_one count in
      place (queue_after n)
        (delivery_of (elim (not ((resolve_retry_target n).0 == "")) [
          | true ↦ bare body (some (("x-retry-count", int n) ∷ []))
          | false ↦ bare body none
        ]))
        none_at

  first_failure :
      (d : Delivery) (h : IsHopeless c d.body) (w : W)
      → retry_count d.headers ≡ pos 0
      → turn c w (alone queue_processing d) ≡ alone queue_retry_30s (counted d.body (pos 1))
  unfolding place resolve_retry_target add_one
  first_failure d h w n = settle-hopeless c d h w none_at ∙ ap (after_failure d.body) n

  second_failure :
      (body : Bytes) (h : IsHopeless c body) (w : W)
      → turn c w (alone queue_processing (counted body (pos 1)))
        ≡ alone queue_retry_2m (counted body (pos 2))
  unfolding place resolve_retry_target add_one retry_count lookup
  second_failure body h w = settle-hopeless c (counted body (pos 1)) h w none_at

  third_failure :
      (body : Bytes) (h : IsHopeless c body) (w : W)
      → turn c w (alone queue_processing (counted body (pos 2))) ≡ alone queue_dlq (dead_copy body)
  unfolding place resolve_retry_target add_one retry_count lookup
  third_failure body h w = settle-hopeless c (counted body (pos 2)) h w none_at

  expired_30s :
      (d : Delivery) (w : W) → turn c w (alone queue_retry_30s d) ≡ alone queue_processing d
  unfolding place place_all dead_letter queues_of declare until_error lookup insert
  expired_30s d w = refl

  expired_2m : (d : Delivery) (w : W) → turn c w (alone queue_retry_2m d) ≡ alone queue_processing d
  unfolding place place_all dead_letter queues_of declare until_error lookup insert
  expired_2m d w = refl

  -- A message that nobody else is with, whose handling always fails and whose copies the broker takes,
  -- is in the dead letters after three deliveries and two waits, whatever the states in which it is
  -- delivered: no queue holds it any more, its body is as it was published, and it has no headers.
  pub turns-dead :
      (d : Delivery) (w1 w2 w3 w4 w5 : W)
      → IsHopeless c d.body
      → retry_count d.headers ≡ pos 0
      → turns c (w1 ∷ w2 ∷ w3 ∷ w4 ∷ w5 ∷ []) (alone queue_processing d) ≡ record {
        processing = [];
        retry_30s = [];
        retry_2m = [];
        dead = dead_copy d.body ∷ [];
        published = 1;
        finished = 0;
      }
  unfolding place
  turns-dead d w1 w2 w3 w4 w5 h n =
      ap (λ b. turns c (w2 ∷ w3 ∷ w4 ∷ w5 ∷ []) b) (first_failure d h w1 n)
      ∙ ap (λ b. turns c (w3 ∷ w4 ∷ w5 ∷ []) b) (expired_30s (counted d.body (pos 1)) w2)
      ∙ ap (λ b. turns c (w4 ∷ w5 ∷ []) b) (second_failure d.body h w3)
      ∙ ap (λ b. turn c w5 b) (expired_2m (counted d.body (pos 2)) w4)
      ∙ third_failure d.body h w5
