-- ===== src/Storage/Mem.antt =====
-- internal/storage/mem.go: the storage in memory. A method holds the lock from its first to its last
-- step, so it is one transition. `time.Now()` reads the field `now`, which no method writes.
use avatars.Prelude.{
  ℕ, ◌+◌, ◌%◌, ◌^◌, String, Bool, true, false, Option, none, some, [], ◌∷◌, ◌==◌, eqb, Error,
  not_found, Result, ok, Assoc, lookup, insert, delete, if◌then◌else◌,
}
use avatars.Models.{Avatar, ProcessingStatus, status_ready}
use avatars.Storage.{Storage}

pub record MemStorage : Type 0 where
  pub now : ℕ
  pub avatars : Assoc Avatar
  pub processed : Assoc ℕ

unfoldable pub new_mem_storage : ℕ → MemStorage
new_mem_storage now = record { now = now; avatars = []; processed = [] }

-- The copy that UpsertAvatar stores.
unfoldable pub stamped : ℕ → Avatar → Avatar
stamped now a = record a {
  created_at = if eqb a.created_at 0 then now else a.created_at;
  updated_at = now;
}

unfoldable pub upsert_avatar : Avatar → MemStorage → Error × MemStorage
upsert_avatar a m = (none, record m { avatars = insert a.user_id (stamped m.now a) m.avatars })

unfoldable pub get_avatar : String → MemStorage → Result (Option Avatar) × MemStorage
get_avatar user_id m = (ok (lookup user_id m.avatars), m)

unfoldable pub delete_avatar : String → MemStorage → Error × MemStorage
delete_avatar user_id m = elim (lookup user_id m.avatars) [
  | none ↦ (some not_found, m)
  | some _ ↦ (none, record m { avatars = delete user_id m.avatars })
]

unfoldable pub with_status : ProcessingStatus → String → ℕ → Avatar → Avatar
with_status status err_msg now a = record a {
  status = status;
  error_message = err_msg;
  updated_at = now;
}

unfoldable pub update_avatar_status :
    String → ProcessingStatus → String → MemStorage → Error × MemStorage
unfolding with_status
update_avatar_status user_id status err_msg m = elim (lookup user_id m.avatars) [
  | none ↦ (some not_found, m)
  | some a ↦
      (none, record m { avatars = insert user_id (with_status status err_msg m.now a) m.avatars })
]

unfoldable pub made_ready : String → String → String → ℕ → ℕ → ℕ → ℕ → Avatar → Avatar
made_ready original_key thumb_key content_type size width height now a = record a {
  status = status_ready;
  original_key = original_key;
  thumbnail_key = thumb_key;
  content_type = content_type;
  size_bytes = size;
  width = width;
  height = height;
  staging_key = "";
  error_message = "";
  updated_at = now;
}

unfoldable pub mark_avatar_ready :
    String → String → String → String → ℕ → ℕ → ℕ → MemStorage → Error × MemStorage
mark_avatar_ready user_id original_key thumb_key content_type size width height m =
    elim (lookup user_id m.avatars) [
      | none ↦ (some not_found, m)
      | some a ↦ (
        none,
        record m {
          avatars =
              insert user_id
                (made_ready original_key thumb_key content_type size width height m.now a)
                m.avatars;
        },
      )
    ]

-- The loop of TotalStorageBytes. An int64 is its bit pattern, so the sum wraps at 2 ^ 64.
unfoldable pub total_from : ℕ → Assoc Avatar → ℕ
total_from total [] = total
total_from total ((_, a) ∷ m) =
    total_from (if a.status == status_ready then (total + a.size_bytes) % 2 ^ 64 else total) m

unfoldable pub total_storage_bytes : MemStorage → Result ℕ × MemStorage
total_storage_bytes m = (ok (total_from 0 m.avatars), m)

is_some : Option ℕ → Bool
is_some none = false
is_some (some _) = true

unfoldable pub is_message_processed : String → MemStorage → Result Bool × MemStorage
unfolding is_some
is_message_processed message_id m = (ok (is_some (lookup message_id m.processed)), m)

unfoldable pub mark_message_processed : String → MemStorage → Error × MemStorage
mark_message_processed message_id m =
    (none, record m { processed = insert message_id m.now m.processed })

unfoldable pub ping : MemStorage → Error × MemStorage
ping m = (none, m)

unfoldable pub close : MemStorage → Error × MemStorage
close m = (none, m)

abbrev pub mem_storage : Storage MemStorage
mem_storage = record {
  upsert_avatar = upsert_avatar;
  get_avatar = get_avatar;
  delete_avatar = delete_avatar;
  update_avatar_status = update_avatar_status;
  mark_avatar_ready = mark_avatar_ready;
  is_message_processed = is_message_processed;
  mark_message_processed = mark_message_processed;
  total_storage_bytes = total_storage_bytes;
  ping = ping;
  close = close;
}
