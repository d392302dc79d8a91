-- ===== src/Metrics/Pollers.antt =====
-- The loops of StartStorageUsagePoller in internal/metrics/metrics.go and of StartQueueDepthPoller in
-- internal/metrics/queue_depth.go, with the gauges and counters of the package.
use avatars.Prelude.{ℕ, ℤ, String, List, [], ◌∷◌, Result}
use avatars.Metrics.{
  RabbitmqManagement, ManagementClient, fetch_queue_depth, poll_round, storage_interval,
  depth_interval,
}

pub data Kind : Type 0 where
  counter histogram gauge : Kind

-- A collector of Prometheus: its name, its kind and the names of its labels.
pub record Collector : Type 0 where
  pub name : String
  pub kind : Kind
  pub labels : List String

abbrev pub http_requests_total : Collector
http_requests_total = record {
  name = "http_requests_total";
  kind = counter;
  labels = "method" ∷ "path" ∷ "status" ∷ [];
}

abbrev pub http_request_duration : Collector
http_request_duration = record {
  name = "http_request_duration_seconds";
  kind = histogram;
  labels = "method" ∷ "path" ∷ "status" ∷ [];
}

abbrev pub uploads_total : Collector
uploads_total = record { name = "avatars_uploads_total"; kind = counter; labels = "status" ∷ [] }

abbrev pub upload_duration : Collector
upload_duration = record {
  name = "avatars_upload_duration_seconds";
  kind = histogram;
  labels = "status" ∷ [];
}

abbrev pub storage_usage : Collector
storage_usage = record { name = "avatars_storage_bytes"; kind = gauge; labels = [] }

abbrev pub db_connections_open : Collector
db_connections_open = record { name = "avatars_db_connections_open"; kind = gauge; labels = [] }

abbrev pub queue_depth : Collector
queue_depth = record { name = "avatars_queue_depth"; kind = gauge; labels = [] }

-- What the select of a poller's loop receives.
pub data Signal : Type 0 where
  cancelled tick : Signal

pub data Polling : Type 0 where
  stopped polling : Polling

-- Either loop, over the signals that it receives: a round for each tick, until the context is cancelled.
unfoldable pub poll_loop : {W : Type 0} → (W → W) → List Signal → W → Polling × W
poll_loop round [] w = (polling, w)
poll_loop round (cancelled ∷ _) w = (stopped, w)
poll_loop round (tick ∷ signals) w = poll_loop round signals (round w)

module _ {W : Type 0} (set_gauge : ℕ → W → W) where
  -- StartStorageUsagePoller: the ticker's interval and the loop. `total_storage_bytes` is the provider.
  unfoldable pub storage_usage_poller : (W → Result ℕ × W) → ℤ → List Signal → W → ℕ × (Polling × W)
  unfolding poll_loop
  storage_usage_poller total_storage_bytes interval signals w =
      (storage_interval interval, poll_loop (poll_round total_storage_bytes set_gauge) signals w)

  unfoldable pub queue_depth_poller :
      ManagementClient W → RabbitmqManagement → String → ℤ → List Signal → W → ℕ × (Polling × W)
  unfolding poll_loop
  queue_depth_poller client mgmt queue_name interval signals w = (
    depth_interval interval,
    poll_loop (poll_round (fetch_queue_depth client mgmt queue_name) set_gauge) signals w,
  )
