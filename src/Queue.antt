-- ===== src/Queue.antt =====
-- internal/queue: the messages and names that producer and consumer share (message.go,
-- topology_names.go). Each child models the file of its name.
pub mod Retry
pub mod Consumer
pub mod Topology
pub mod Connection
pub mod Propagation
use avatars.Prelude.{String}

pub record AvatarProcessMessage : Type 0 where
  pub message_id : String
  pub user_id : String
  pub staging_key : String

abbrev pub exchange_direct : String
exchange_direct = "avatars.direct"

abbrev pub exchange_dlx : String
exchange_dlx = "avatars.dlx"

abbrev pub queue_processing : String
queue_processing = "avatars.processing"

abbrev pub queue_retry_30s : String
queue_retry_30s = "avatars.retry.30s"

abbrev pub queue_retry_2m : String
queue_retry_2m = "avatars.retry.2m"

abbrev pub queue_dlq : String
queue_dlq = "avatars.dlq"

abbrev pub routing_upload : String
routing_upload = "avatar.upload"

abbrev pub routing_retry : String
routing_retry = "retry"

abbrev pub routing_dlq : String
routing_dlq = "dlq"
