-- ===== src/Metrics/Management.antt =====
-- What the queue depth's poller can rely on, once its connection details were accepted.
use Prim.Native.String as Str
use mathlib.Core.Path.{subst}
use avatars.Prelude.{
  String, ◌≡◌, ◌≢◌, ◌∙◌, refl, not, ◌&&◌, ◌==◌, eq_iff, Result, ok, Result-cases, Bool-cases, false,
  inl, inr, if◌then◌else◌,
}
use avatars.Metrics.{
  management_of, text_or, parsed_management, RabbitmqManagement, BrokerUrl,
  rabbitmq_management_from_url, rabbit_management_base_url,
}

-- What connection details must be for the poller.
pub record IsUsable (mgmt : RabbitmqManagement) (mgmt_port : String) : Type 0 where
  pub hosted : mgmt.host ≢ ""
  pub port : mgmt.port ≡ (if mgmt_port == "" then "15672" else mgmt_port)
  pub named : mgmt.user ≢ ""
  pub base_url :
      rabbit_management_base_url mgmt
      ≡ ok (Str.◌++◌ "http://" (Str.◌++◌ mgmt.host (Str.◌++◌ ":" mgmt.port)))

default_port : (port : String) → text_or (text_or port "15672") "15672" ≡ text_or port "15672"
unfolding text_or
default_port port = elim (Bool-cases (port == "")) [ inl e ↦ rw e refl | inr e ↦ rw (e, e) refl ]

details-IsUsable :
    (mgmt : RabbitmqManagement) (mgmt_port : String)
    → (mgmt.host == "") ≡ false
    → (mgmt.user == "") ≡ false
    → mgmt.port ≡ text_or mgmt_port "15672"
    → IsUsable mgmt mgmt_port
unfolding rabbit_management_base_url
details-IsUsable mgmt mgmt_port hosted named port = record {
  hosted = λ e. cc (hosted, (eq_iff mgmt.host "").1 e);
  port = port ∙ unfold text_or in refl;
  named = λ e. cc (named, (eq_iff mgmt.user "").1 e);
  base_url = rw (hosted, port, default_port mgmt_port) refl;
}

management_of-IsUsable :
    (parsed : BrokerUrl) (mgmt_port user password : String)
    → (parsed.hostname == "") ≡ false
    → IsUsable (management_of parsed (text_or mgmt_port "15672") user password) mgmt_port
unfolding management_of
management_of-IsUsable parsed mgmt_port user password hosted = elim (Bool-cases (user == "")) [
  | inl e ↦ rw e (details-IsUsable _ mgmt_port hosted refl refl)
  | inr e ↦ rw e (details-IsUsable _ mgmt_port hosted e refl)
]

parsed_management-IsUsable :
    (parsed : BrokerUrl) (mgmt_port user password : String) (mgmt : RabbitmqManagement)
    → parsed_management parsed mgmt_port user password ≡ ok mgmt
    → IsUsable mgmt mgmt_port
unfolding parsed_management
parsed_management-IsUsable parsed mgmt_port user password mgmt h =
    elim (Bool-cases (not (parsed.scheme == "amqp") && not (parsed.scheme == "amqps"))) [
      | inl foreign ↦ absurd (cc (rw foreign at h))
      | inr known ↦ elim (Bool-cases (parsed.hostname == "")) [
        | inl empty ↦ absurd (cc (rw (known, empty) at h))
        | inr hosted ↦
            subst (λ m. IsUsable m mgmt_port) (cc (rw (known, hosted) at h))
              (management_of-IsUsable parsed mgmt_port (text_or user parsed.username)
                (text_or password parsed.password) hosted)
      ]
    ]

-- Connection details that RabbitMQManagementFromURL accepts have a host, a port and a user that are
-- not empty, the port being the given one where there is one, and the base URL of the management
-- API that is formed from them never fails.
pub rabbit_management_base_url-from_url :
    (parse : String → Result BrokerUrl) (rabbit_url mgmt_port user password : String)
    (mgmt : RabbitmqManagement)
    → rabbitmq_management_from_url parse rabbit_url mgmt_port user password ≡ ok mgmt
    → IsUsable mgmt mgmt_port
unfolding rabbitmq_management_from_url
rabbit_management_base_url-from_url parse rabbit_url mgmt_port user password mgmt h =
    elim (Result-cases (parse rabbit_url)) [
      | inl (parsed, e) ↦
          parsed_management-IsUsable parsed mgmt_port user password mgmt
            (rw (e, rabbitmq_management_from_url) at h)
      | inr (x, e) ↦ absurd (cc (rw (e, rabbitmq_management_from_url) at h))
    ]
