-- ===== src/Metrics.antt =====
-- internal/metrics: the path label and the middleware of metrics.go, the rounds of its poller, and the
-- queue depth of queue_depth.go. The counters and gauges are those of the Prometheus client.
pub mod Management
pub mod Pollers
use Prim.Native.String as Str
use avatars.Prelude.{
  ℕ, ◌+◌, ◌*◌, ◌^◌, ℤ, pos, String, Bool, ◌&&◌, not, ◌==◌, eqb, Option, none, some, List, [], ◌∷◌,
  has_prefix, trim_space, Error, Failure, other, Result, ok, err, positive_or, if◌then◌else◌,
}
use avatars.Handler.{Bytes}
use avatars.Http.{Request, Response}

unfoldable pub normalize_path : String → String
normalize_path path = if has_prefix path "/api/avatars/" then "/api/avatars/{user_id}" else path

-- HTTPRequestsTotal.Inc and HTTPRequestDuration.Observe under the labels (method, path, status).
pub record HttpMetrics (W : Type 0) : Type 0 where
  pub count_request : String → String → ℕ → W → W

-- HTTPMiddleware. The status of a Response is that of the last WriteHeader, or 200, which is what
-- responseWriter keeps.
unfoldable pub http_middleware :
    {W : Type 0} → HttpMetrics W → (Request → W → Response × W) → Request → W → Response × W
unfolding normalize_path
http_middleware metrics next r w =
    let (resp, w1) = next r w in
    (resp, metrics.count_request r.method (normalize_path r.path) resp.status w1)

-- The waiting time of StartStorageUsagePoller, in nanoseconds, and one round of its loop: the gauge is
-- set by a total, and an error leaves it.
unfoldable pub storage_interval : ℤ → ℕ
unfolding positive_or
storage_interval interval = positive_or (30 * 10 ^ 9) interval

polled : {W : Type 0} → (ℕ → W → W) → Result ℕ → W → W
polled set_gauge (err _) w = w
polled set_gauge (ok total) w = set_gauge total w

unfoldable pub poll_round : {W : Type 0} → (W → Result ℕ × W) → (ℕ → W → W) → W → W
unfolding polled
poll_round measure set_gauge w = let (r, w1) = measure w in polled set_gauge r w1

-- Of StartQueueDepthPoller, whose loop has the same rounds.
unfoldable pub depth_interval : ℤ → ℕ
unfolding positive_or
depth_interval interval = positive_or (15 * 10 ^ 9) interval

pub record RabbitmqManagement : Type 0 where
  pub host : String
  pub port : String
  pub user : String
  pub password : String

-- What url.Parse yields: Scheme, Hostname(), User.Username() and User.Password(), where no password is
-- the empty text.
pub record BrokerUrl : Type 0 where
  pub scheme : String
  pub hostname : String
  pub username : String
  pub password : String

text_or : String → String → String
text_or value fallback = if value == "" then fallback else value

management_of : BrokerUrl → String → String → String → RabbitmqManagement
management_of parsed port user password =
    if user == ""
    then record { host = parsed.hostname; port = port; user = "guest"; password = "guest" }
    else record { host = parsed.hostname; port = port; user = user; password = password }

parsed_management : BrokerUrl → String → String → String → Result RabbitmqManagement
parsed_management parsed mgmt_port user password =
    if not (parsed.scheme == "amqp") && not (parsed.scheme == "amqps")
    then err (other (Str.◌++◌ "unsupported rabbitmq scheme: " parsed.scheme))
    else if parsed.hostname == ""
    then err (other "rabbitmq host is empty")
    else ok (
        management_of parsed (text_or mgmt_port "15672") (text_or user parsed.username)
          (text_or password parsed.password))

-- `parse` is url.Parse.
unfoldable pub rabbitmq_management_from_url :
    (String → Result BrokerUrl) → String → String → String → String → Result RabbitmqManagement
unfolding text_or management_of parsed_management
rabbitmq_management_from_url parse rabbit_url mgmt_port user password = elim (parse rabbit_url) [
  | err e ↦ err e
  | ok parsed ↦ parsed_management parsed mgmt_port user password
]

unfoldable pub rabbit_management_base_url : RabbitmqManagement → Result String
unfolding text_or
rabbit_management_base_url mgmt =
    if mgmt.host == ""
    then err (other "rabbitmq host is empty")
    else ok (Str.◌++◌ "http://" (Str.◌++◌ mgmt.host (Str.◌++◌ ":" (text_or mgmt.port "15672"))))

-- An HTTP answer: its status, and its body as text (where reading it fails, what was read) and as what
-- the JSON decoder makes of it, the field `messages`.
pub record Answer : Type 0 where
  pub status_code : ℕ
  pub text : String
  pub messages : Result ℕ

-- The HTTP client: the request's URL, user and password. `itoa` and `path_escape` are strconv and
-- net/url.
pub record ManagementClient (W : Type 0) : Type 0 where
  pub new_request : String → Error
  pub send : String → String → String → W → Result Answer × W
  pub itoa : ℕ → String
  pub path_escape : String → String

module _ {W : Type 0} (client : ManagementClient W) where
  depth_of : Result Answer → Result ℕ
  depth_of (err e) = err e
  depth_of (ok resp) =
      if not (eqb resp.status_code 200)
      then err (
          other (
            Str.◌++◌ "management api status "
              (Str.◌++◌ (client.itoa resp.status_code) (Str.◌++◌ ": " (trim_space resp.text)))))
      else resp.messages

  requested : RabbitmqManagement → String → Error → W → Result ℕ × W
  requested mgmt endpoint (some e) w = (err e, w)
  requested mgmt endpoint none w =
      let (resp, w1) = client.send endpoint mgmt.user mgmt.password w in (depth_of resp, w1)

  fetched : RabbitmqManagement → String → Result String → W → Result ℕ × W
  fetched mgmt queue_name (err e) w = (err e, w)
  fetched mgmt queue_name (ok base_url) w =
      let endpoint = Str.◌++◌ base_url (
        Str.◌++◌ "/api/queues/"
          (Str.◌++◌ (client.path_escape "/") (Str.◌++◌ "/" (client.path_escape queue_name)))) in
      requested mgmt endpoint (client.new_request endpoint) w

  unfoldable pub fetch_queue_depth : RabbitmqManagement → String → W → Result ℕ × W
  unfolding depth_of requested fetched
  fetch_queue_depth mgmt queue_name = fetched mgmt queue_name (rabbit_management_base_url mgmt)
