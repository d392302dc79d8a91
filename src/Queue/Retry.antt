-- ===== src/Queue/Retry.antt =====
-- internal/queue/retry.go: where a failed message goes, the retry count in the headers, and the
-- publisher.
use avatars.Prelude.{
  zero, suc, String, Bool, true, false, not, ◌==◌, Option, none, some, [], ◌∷◌, ℤ, pos, Error, wrap,
  Result, ok, err, Assoc, lookup, if◌then◌else◌,
}
use avatars.Handler.{Bytes}
use avatars.Queue.{
  AvatarProcessMessage, exchange_direct, exchange_dlx, queue_retry_30s, queue_retry_2m,
  routing_upload, routing_dlq,
}

-- A value of an amqp.Table; `other` is one of the types that the program does not read.
pub data Value : Type 0 where
  int32 int64 int : ℤ → Value
  str : String → Value
  bytes : Bytes → Value
  other : Value

-- amqp.Table; `none` is a nil map.
abbrev pub Table : Type 0
Table = Option (Assoc Value)

-- amqp.Publishing, the fields that the program sets; `""` and false are the zero values.
pub record Publishing : Type 0 where
  pub content_type : String
  pub body : Bytes
  pub message_id : String
  pub is_persistent : Bool
  pub headers : Table

-- The channel's Publish (exchange, key, message); it is never mandatory or immediate.
pub record PublishChannel (W : Type 0) : Type 0 where
  pub publish : String → String → Publishing → W → Error × W

-- queue name, exchange, routing key
unfoldable pub resolve_retry_target : ℤ → String × String × String
resolve_retry_target (pos (suc zero)) = (queue_retry_30s, "", "")
resolve_retry_target (pos (suc (suc zero))) = (queue_retry_2m, "", "")
resolve_retry_target _ = ("", exchange_dlx, routing_dlq)

count_of : Option Value → ℤ
count_of (some (int32 n)) = n
count_of (some (int64 n)) = n
count_of (some (int n)) = n
count_of _ = pos 0

unfoldable pub retry_count : Table → ℤ
unfolding count_of
retry_count none = pos 0
retry_count (some headers) = count_of (lookup "x-retry-count" headers)

-- amqp.Publishing{Body: body, Headers: headers}
abbrev pub bare : Bytes → Table → Publishing
bare body headers = record {
  content_type = "";
  body = body;
  message_id = "";
  is_persistent = false;
  headers = headers;
}

module _ {W : Type 0} (ch : PublishChannel W) where
  unfoldable pub send_to_retry : Bytes → ℤ → W → Error × W
  send_to_retry body count =
      let (queue_name, exchange, routing_key) = resolve_retry_target count in
      if not (queue_name == "")
      then ch.publish "" queue_name (bare body (some (("x-retry-count", int count) ∷ [])))
      else ch.publish exchange routing_key (bare body none)

  -- PublishAvatarProcess. `marshal` is json.Marshal at this type, and `inject` is
  -- InjectTraceContext on an empty table.
  unfoldable pub publish_avatar_process :
      (AvatarProcessMessage → Result Bytes) → Table → AvatarProcessMessage → W → Error × W
  publish_avatar_process marshal injected msg w = elim (marshal msg) [
    | err e ↦ (some (wrap "marshal message" e), w)
    | ok body ↦
        ch.publish exchange_direct routing_upload
          (record {
            content_type = "application/json";
            body = body;
            message_id = msg.message_id;
            is_persistent = true;
            headers = injected;
          })
          w
  ]
