-- ===== src/Tests/Brokers.antt =====
-- A message that fails once and is then handled, on its way through the queues.
use avatars.Prelude.{Error, List, true, lookup, ◌+◌, ℕ, none, ◌∷◌, ◌≡◌, refl, some, [], other}
use avatars.Queue.{queue_processing}
use avatars.Queue.Consumer.{Consumer, Delivery, with_id, handle_delivery}
use avatars.Storage.Mem.{MemStorage}
use avatars.Queue.{AvatarProcessMessage}
use avatars.Recording.Deliveries.{was_marked, runs, acts_of}
use avatars.System.Broker.{Broker, place, settle, published}
use avatars.Queue.Retry.{retry_count}
use avatars.System.Broker.DeadLetters.{IsHopeless, turns, alone, dead_copy, turns-dead}
use avatars.Tests.Routes.{lost}
use avatars.Storage.Postgres
use avatars.Storage.Postgres.{Postgres, postgres_storage}
use avatars.Storage.Ops.{Op, remove, mark_processed, perform_all}
use avatars.System.Idempotency.{over_db, after, runs-after_marked}
use avatars.Tests.Env.{microseconds, message_of_ann, mem, consumer_with, delivery}

abbrev consumer : Consumer MemStorage
consumer = consumer_with (some (other "no such key"))

abbrev filled : Broker
filled = place queue_processing delivery (record {
  processing = [];
  retry_30s = [];
  retry_2m = [];
  dead = [];
  published = 1;
  finished = 0;
})

abbrev failed : Broker
failed = settle (acts_of consumer delivery mem) delivery (record filled { processing = [] })

-- A consumer whose handler always fails.
abbrev failing : Consumer ℕ
failing = record {
  ch = record { publish = λ _ _ _ n. (none, n) };
  acks = record { ack = λ n. n; nack = λ _ n. n };
  store = lost;
  unmarshal = λ _. some message_of_ann;
  handler = λ _ _ n. (some (other "no such key"), n);
}

failing-IsHopeless : IsHopeless failing delivery.body
failing-IsHopeless = record {
  message = message_of_ann;
  decodes = refl;
  is_new = λ id n. refl;
  fails = λ msg d n. (other "no such key", refl);
  is_taken = λ exchange key m n. refl;
}

turns-dead_example :
    turns failing (1 ∷ 2 ∷ 3 ∷ 4 ∷ 5 ∷ []) (alone queue_processing delivery) ≡ record {
      processing = [];
      retry_30s = [];
      retry_2m = [];
      dead = dead_copy delivery.body ∷ [];
      published = 1;
      finished = 0;
    }
turns-dead_example =
    turns-dead failing delivery 1 2 3 4 5 failing-IsHopeless (unfold retry_count in refl)

abbrev fresh : Postgres
fresh = record { timestamptz = microseconds; now = 9; avatars = []; processed = []; faults = [] }

abbrev working : AvatarProcessMessage → Delivery → Postgres × ℕ → Error × (Postgres × ℕ)
working _ _ (p, n) = (none, (p, n + 1))

abbrev calls : List Op
calls = remove "ann" ∷ mark_processed "m2" ∷ []

marked : was_marked (acts_of (over_db failing working) delivery (fresh, 0)) ≡ true
unfolding was_marked handle_delivery with_id Postgres.is_message_processed
    Postgres.mark_message_processed lookup
marked = refl

runs-after_marked_example :
    runs (
      acts_of
        (over_db failing working)
        delivery
        ((perform_all postgres_storage calls (after failing working delivery fresh 0).0).1, 0))
    ≡ 0
runs-after_marked_example =
    runs-after_marked failing working delivery message_of_ann fresh 0 refl calls 0 delivery
      message_of_ann marked refl refl
