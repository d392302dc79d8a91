-- ===== src/Tests/Deliveries.antt =====
-- Examples for the consumer and its retries.
use avatars.Prelude.{◌≤◌, ◌≡◌, refl, ◌↔◌, true, none, some, [], ◌∷◌, other, pos, lookup, add_one}
use avatars.Storage.Mem
use avatars.Queue.Retry.{Table, int, bare, retry_count, resolve_retry_target, send_to_retry}
use avatars.Queue.Consumer.{Delivery, handle_delivery}
use avatars.Recording.Deliveries
use avatars.Recording.Settling
use avatars.Recording.Retries.{
  Retries, none_yet, once_more, retried, copy_to_queue, Retries-le, Retries-body,
}
use avatars.Tests.Env.{mem, consumer_with, delivery}

handle_delivery-settlements_example :
    (Deliveries.settlements (Deliveries.acts_of (consumer_with none) delivery mem) ≡ 1)
    × (Deliveries.runs (Deliveries.acts_of (consumer_with none) delivery mem) ≤ 1)
handle_delivery-settlements_example =
    Deliveries.handle_delivery-settlements (consumer_with none) delivery mem

was_acked_lem_example :
    (Deliveries.was_acked (Deliveries.acts_of (consumer_with none) delivery mem) ≡ true)
    ↔ Settling.IsDone (consumer_with none) delivery mem
was_acked_lem_example = Settling.was_acked_lem (consumer_with none) delivery mem

abbrev carry : Table → Table
carry headers = headers

-- The delivery after the first retry of a message whose handler fails.
abbrev second : Delivery
second = record {
  body = delivery.body;
  message_id = "";
  headers = some (("x-retry-count", int (pos 1)) ∷ []);
}

first_retry : Retries (consumer_with (some (other "no"))) carry delivery 1 second
unfolding copy_to_queue handle_delivery send_to_retry resolve_retry_target retry_count add_one
    Mem.is_message_processed lookup
first_retry = once_more none_yet (retried mem (bare delivery.body second.headers) refl)

Retries-le_example : ◌≤◌ 1 2
Retries-le_example =
    Retries-le (consumer_with (some (other "no"))) carry (λ headers. refl) first_retry

Retries-body_example : (second.body ≡ delivery.body) × (second.message_id ≡ "")
Retries-body_example =
    Retries-body (consumer_with (some (other "no"))) carry (λ headers. refl) first_retry
