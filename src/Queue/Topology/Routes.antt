-- ===== src/Queue/Topology/Routes.antt =====
-- Where messages go by the declarations of Declare, read as AMQP documents them: a direct exchange
-- hands a message to the queues that are bound to it by its key, the default exchange to the queue
-- of that name, and a queue gives what expires or is refused to its dead-letter exchange.
use avatars.Prelude.{
  String, Bool, false, ◌≡◌, refl, ◌&&◌, ◌==◌, Option, none, some, List, [], ◌∷◌, ℤ, pos, negsuc,
  zero, suc, Assoc, lookup, insert, Result, ok, if◌then◌else◌,
}
use avatars.Handler.{Bytes}
use avatars.Queue.{
  AvatarProcessMessage, queue_processing, queue_retry_30s, queue_retry_2m, queue_dlq,
}
use avatars.Queue.Retry.{
  Table, Value, str, int32, PublishChannel, resolve_retry_target, send_to_retry,
  publish_avatar_process,
}
use avatars.Queue.Topology.{DeclareChannel, until_error, declare}

-- Exchanges with their kinds, queues with their arguments, and bindings (exchange, key, queue).
pub record Topology : Type 0 where
  pub exchanges : Assoc String
  pub queues : Assoc Table
  pub bindings : List (String × String × String)

abbrev empty : Topology
empty = record { exchanges = []; queues = []; bindings = [] }

-- A broker that takes every declaration.
abbrev pub keeping : DeclareChannel Topology
keeping = record {
  exchange_declare = λ name kind t. (none, record t { exchanges = insert name kind t.exchanges });
  queue_declare = λ name args t. (none, record t { queues = insert name args t.queues });
  queue_bind =
      λ queue key exchange t. (none, record t { bindings = (exchange, key, queue) ∷ t.bindings });
}

abbrev pub declared : Topology
declared = (declare keeping empty).1

bound_to : String → String → List (String × String × String) → List String
bound_to exchange key [] = []
bound_to exchange key ((e, k, queue) ∷ bindings) =
    let rest = bound_to exchange key bindings in
    if e == exchange && k == key then queue ∷ rest else rest

named : String → Option Table → List String
named queue none = []
named queue (some _) = queue ∷ []

is_direct : Option String → Bool
is_direct none = false
is_direct (some kind) = kind == "direct"

-- The queues that a message with this exchange and key goes to.
unfoldable pub queues_of : Topology → String → String → List String
unfolding bound_to named is_direct
queues_of t exchange key =
    if exchange == ""
    then named key (lookup key t.queues)
    else if is_direct (lookup exchange t.exchanges)
    then bound_to exchange key t.bindings
    else []

text_of : Option Value → String
text_of (some (str s)) = s
text_of _ = ""

argument : String → Option Table → Option Value
argument key (some (some args)) = lookup key args
argument key _ = none

-- The queues that a message goes to when it expires in this one or is refused from it.
unfoldable pub dead_letter : Topology → String → List String
unfolding text_of argument queues_of
dead_letter t queue =
    let args = lookup queue t.queues in
    queues_of t (text_of (argument "x-dead-letter-exchange" args))
      (text_of (argument "x-dead-letter-routing-key" args))

-- How long a message stays in a queue that nobody reads, in milliseconds.
unfoldable pub delay : Topology → String → Option Value
unfolding argument
delay t queue = argument "x-message-ttl" (lookup queue t.queues)

-- A channel of the declared topology: it notes the queues that a message goes to.
abbrev pub routing : PublishChannel (List String)
routing = record { publish = λ exchange key m w. (none, queues_of declared exchange key) }

-- The queue for a message that has failed for the nth time.
abbrev pub queue_after : ℤ → String
queue_after (pos (suc zero)) = queue_retry_30s
queue_after (pos (suc (suc zero))) = queue_retry_2m
queue_after _ = queue_dlq

pub send_to_retry-routing :
    (body : Bytes) (n : ℤ) (w : List String)
    → send_to_retry routing body n w ≡ (none, queue_after n ∷ [])
unfolding send_to_retry resolve_retry_target queues_of declare until_error lookup insert
send_to_retry-routing body (pos zero) w = refl
send_to_retry-routing body (pos (suc zero)) w = refl
send_to_retry-routing body (pos (suc (suc zero))) w = refl
send_to_retry-routing body (pos (suc (suc (suc n)))) w = refl
send_to_retry-routing body (negsuc n) w = refl

-- By the declarations of Declare: an upload's message, whenever it can be marshalled, goes to the
-- processing queue and no other; the copy of a message that failed for the first time goes to
-- the queue of 30 seconds, for the second time to that of 2 minutes, and else to the dead letters, each
-- to one queue; the two retry queues give their messages back to the processing queue after
-- that time, and the processing queue gives what it refuses to the dead letters.
pub declared-routes :
    (marshal : AvatarProcessMessage → Result Bytes) (injected : Table) (msg : AvatarProcessMessage)
    (content body : Bytes) (n : ℤ) (w : List String)
    → marshal msg ≡ ok content
    → (publish_avatar_process routing marshal injected msg w ≡ (none, queue_processing ∷ []))
      × (send_to_retry routing body n w ≡ (none, queue_after n ∷ []))
      × (dead_letter declared queue_retry_30s ≡ queue_processing ∷ [])
      × (delay declared queue_retry_30s ≡ some (int32 (pos 30000)))
      × (dead_letter declared queue_retry_2m ≡ queue_processing ∷ [])
      × (delay declared queue_retry_2m ≡ some (int32 (pos 120000)))
      × (dead_letter declared queue_processing ≡ queue_dlq ∷ [])
unfolding publish_avatar_process queues_of dead_letter delay declare until_error lookup insert
declared-routes marshal injected msg content body n w e = (
  rw (publish_avatar_process, e) refl,
  send_to_retry-routing body n w,
  refl,
  refl,
  refl,
  refl,
  refl,
)
