-- ===== src/Tests/Clients.antt =====
-- Examples for the clients of the broker, the object store and the management interface.
use avatars.Prelude.{
  ℕ, ◌≡◌, ◌==◌, refl, none, some, [], ◌∷◌, List, String, pos, other, ok, err, if◌then◌else◌,
}
use avatars.Handler.{Bytes}
use avatars.Queue.{queue_processing, queue_retry_30s, queue_retry_2m, queue_dlq}
use avatars.Queue.Retry.{int32, publish_avatar_process, send_to_retry}
use avatars.Queue.Topology.Routes.{
  declared, dead_letter, delay, routing, queue_after, declared-routes,
}
use avatars.Queue.Connection.{Dialer}
use avatars.ObjectStore.{Client, delete}
use avatars.ObjectStore.Deletions.{noting, all_deleted, last_error, delete_lem}
use avatars.Tests.Env.{message_of_ann}

abbrev content : Bytes
content = 123 ∷ 125 ∷ []

declared-routes_example :
    (publish_avatar_process routing (λ _. ok content) none message_of_ann []
      ≡ (none, queue_processing ∷ []))
    × (send_to_retry routing content (pos 2) [] ≡ (none, queue_after (pos 2) ∷ []))
    × (dead_letter declared queue_retry_30s ≡ queue_processing ∷ [])
    × (delay declared queue_retry_30s ≡ some (int32 (pos 30000)))
    × (dead_letter declared queue_retry_2m ≡ queue_processing ∷ [])
    × (delay declared queue_retry_2m ≡ some (int32 (pos 120000)))
    × (dead_letter declared queue_processing ≡ queue_dlq ∷ [])
declared-routes_example =
    declared-routes (λ _. ok content) none message_of_ann content content (pos 2) [] refl

-- A broker that refuses the declarations.
abbrev refusing : Dialer ℕ
refusing = record {
  dial = λ _ n. (none, n);
  open_channel = λ n. (none, n);
  close_channel = λ n. n;
  close_connection = λ n. n;
  ch = record {
    exchange_declare = λ _ _ n. (some (other "access refused"), n);
    queue_declare = λ _ _ n. (none, n);
    queue_bind = λ _ _ _ n. (none, n);
  };
}

-- A store that has lost "b".
abbrev store : Client ℕ
store = record {
  client = record {
    put_object = λ _ _ _ _ n. (none, n);
    get_object = λ _ _ n. (err (other "no such key"), n);
    delete_object = λ _ key n. (if key == "b" then some (other "gone") else none, n);
    presign = λ _ key _ n. (ok key, n);
    head_bucket = λ _ n. (none, n);
    create_bucket = λ _ n. (none, n);
  };
  bucket = "avatars";
  public_endpoint = "";
  urls = record {
    Url = String;
    parse = λ s. ok s;
    scheme = λ _. "http";
    host = λ s. s;
    with_host = λ _ host _. host;
    print = λ s. s;
  };
}

abbrev keys : List String
keys = "a" ∷ "" ∷ "b" ∷ "c" ∷ []

delete_lem_example :
    ((delete (noting store) keys (0, [])).0 ≡ last_error (delete (noting store) keys (0, [])).1.1)
    × ((delete (noting store) keys (0, [])).0 ≡ none
        → (delete (noting store) keys (0, [])).1.1 ≡ all_deleted keys [])
delete_lem_example = delete_lem store keys 0

it_stops : (delete (noting store) keys (0, [])).1.1 ≡ ("b", some (other "gone")) ∷ ("a", none) ∷ []
unfolding delete
it_stops = refl
