-- ===== src/Queue/Topology.antt =====
-- internal/queue/topology.go: the exchanges, queues and bindings that Declare asks the broker for.
pub mod Routes
use avatars.Prelude.{ℕ, String, none, some, List, [], ◌∷◌, pos, Error}
use avatars.Queue.{
  exchange_direct, exchange_dlx, queue_processing, queue_retry_30s, queue_retry_2m, queue_dlq,
  routing_upload, routing_retry, routing_dlq,
}
use avatars.Queue.Retry.{Table, Value, int32, str}

-- The declarations of amqp.Channel that the program makes; all are durable, none is deleted when
-- unused, internal, exclusive or without an answer.
pub record DeclareChannel (W : Type 0) : Type 0 where
  -- name, kind
  pub exchange_declare : String → String → W → Error × W
  -- name, arguments
  pub queue_declare : String → Table → W → Error × W
  -- queue, routing key, exchange
  pub queue_bind : String → String → String → W → Error × W

-- Statements of the form `if err := f(); err != nil { return err }`.
unfoldable pub until_error : {W : Type 0} → List (W → Error × W) → W → Error × W
until_error [] w = (none, w)
until_error (f ∷ later) w =
    let (e, w1) = f w in
    let rest = until_error later w1 in elim e [ none ↦ rest | some x ↦ (some x, w1) ]

abbrev pub dead_letters_to : String → Table
dead_letters_to key =
    some
      (("x-dead-letter-exchange", str exchange_dlx) ∷ ("x-dead-letter-routing-key", str key) ∷ [])

abbrev pub expires_to : ℕ → String → Table
expires_to ttl key = some (
    ("x-message-ttl", int32 (pos ttl))
    ∷ ("x-dead-letter-exchange", str exchange_dlx)
    ∷ ("x-dead-letter-routing-key", str key)
    ∷ [])

module _ {W : Type 0} (ch : DeclareChannel W) where
  abbrev pub declarations : List (W → Error × W)
  declarations =
      ch.exchange_declare exchange_dlx "direct"
      ∷ ch.exchange_declare exchange_direct "direct"
      ∷ ch.queue_declare queue_processing (dead_letters_to routing_dlq)
      ∷ ch.queue_bind queue_processing routing_retry exchange_dlx
      ∷ ch.queue_bind queue_processing routing_upload exchange_direct
      ∷ ch.queue_declare queue_retry_30s (expires_to 30000 routing_retry)
      ∷ ch.queue_declare queue_retry_2m (expires_to 120000 routing_retry)
      ∷ ch.queue_declare queue_dlq none
      ∷ ch.queue_bind queue_dlq routing_dlq exchange_dlx
      ∷ []

  unfoldable pub declare : W → Error × W
  unfolding until_error
  declare = until_error declarations
