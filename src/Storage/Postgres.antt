-- ===== src/Storage/Postgres.antt =====
-- internal/storage/postgres.go: the storage in PostgreSQL, each method with the meaning of its SQL
-- statement on the tables of migrations/001 and 002. A statement runs atomically, or fails with an
-- error of the driver and changes nothing: `faults` holds the errors to come, `none` for a statement
-- that runs, and a list that is used up holds no more. `time.Now()` reads `now`. The gauge
-- that RecordDBStats sets and the spans are left out.
use avatars.Prelude.{
  ℕ, ◌+◌, ◌^◌, String, Bool, true, false, Option, none, some, List, [], ◌∷◌, ◌==◌, ltb, eqb, Error,
  Failure, other, not_found, Result, ok, err, Assoc, lookup, insert, delete, if◌then◌else◌,
}
use avatars.Models.{Avatar, ProcessingStatus, status_ready}
use avatars.Storage.{Storage}

-- A row of `avatars`; `none` is NULL. The columns `width` and `height` are INT and `size_bytes` is
-- BIGINT: the values are below 2 ^ 31 and 2 ^ 63, which those of the program are; a statement with a
-- larger one is not modelled.
pub record Row : Type 0 where
  pub user_id : String
  pub status : ProcessingStatus
  pub staging_key : String
  pub original_key : String
  pub thumbnail_key : String
  pub content_type : String
  pub size_bytes : ℕ
  pub width : ℕ
  pub height : ℕ
  pub error_message : Option String
  pub message_id : String
  pub created_at : ℕ
  pub updated_at : ℕ

-- `avatars` and `processed_messages` go by their primary keys. A TIMESTAMPTZ column has microseconds:
-- `timestamptz` is what the server keeps of a time in nanoseconds.
pub record Postgres : Type 0 where
  pub timestamptz : ℕ → ℕ
  pub now : ℕ
  pub avatars : Assoc Row
  pub processed : Assoc ℕ
  pub faults : List Error

-- The time of a call, as a column keeps it.
abbrev pub stored_now : Postgres → ℕ
stored_now p = p.timestamptz p.now

unfoldable pub null_string : String → Option String
null_string s = if s == "" then none else some s

abbrev pub coalesce : Option String → String
coalesce none = ""
coalesce (some s) = s

-- The row that UpsertAvatar hands to INSERT.
unfoldable pub to_row : (ℕ → ℕ) → ℕ → Avatar → Row
unfolding null_string
to_row timestamptz now a = record {
  user_id = a.user_id;
  status = a.status;
  staging_key = a.staging_key;
  original_key = a.original_key;
  thumbnail_key = a.thumbnail_key;
  content_type = a.content_type;
  size_bytes = a.size_bytes;
  width = a.width;
  height = a.height;
  error_message = null_string a.error_message;
  message_id = a.message_id;
  created_at = timestamptz (if eqb a.created_at 0 then now else a.created_at);
  updated_at = timestamptz now;
}

unfoldable pub scan_avatar : Row → Avatar
scan_avatar r = record {
  user_id = r.user_id;
  status = r.status;
  staging_key = r.staging_key;
  original_key = r.original_key;
  thumbnail_key = r.thumbnail_key;
  content_type = r.content_type;
  size_bytes = r.size_bytes;
  width = r.width;
  height = r.height;
  error_message = coalesce r.error_message;
  message_id = r.message_id;
  created_at = r.created_at;
  updated_at = r.updated_at;
}

-- ON CONFLICT (user_id) DO UPDATE: every column but created_at is the new one.
unfoldable pub on_conflict : Option Row → Row → Row
on_conflict none new = new
on_conflict (some old) new = record new { created_at = old.created_at }

module _ {A : Type 0} (failed : Failure → A) where
  run_with : List Error → (List Error → Postgres) → (Postgres → A × Postgres) → A × Postgres
  run_with [] at run = run (at [])
  run_with (none ∷ faults) at run = run (at faults)
  run_with (some e ∷ faults) at run = (failed e, at faults)

  -- One statement, which runs or fails.
  statement : (Postgres → A × Postgres) → Postgres → A × Postgres
  unfolding run_with
  statement run p = run_with p.faults (λ faults. record p { faults = faults }) run

unfoldable pub upsert_avatar : Avatar → Postgres → Error × Postgres
unfolding statement to_row on_conflict
upsert_avatar a = statement some λ p.
    let row = to_row p.timestamptz p.now a in
    (
      none,
      record p {
        avatars = insert a.user_id (on_conflict (lookup a.user_id p.avatars) row) p.avatars;
      },
    )

scan_row : Option Row → Option Avatar
scan_row none = none
scan_row (some r) = some (scan_avatar r)

unfoldable pub get_avatar : String → Postgres → Result (Option Avatar) × Postgres
unfolding statement scan_row
get_avatar user_id = statement err λ p. (ok (scan_row (lookup user_id p.avatars)), p)

unfoldable pub delete_avatar : String → Postgres → Error × Postgres
unfolding statement
delete_avatar user_id = statement some λ p. elim (lookup user_id p.avatars) [
  | none ↦ (some not_found, p)
  | some _ ↦ (none, record p { avatars = delete user_id p.avatars })
]

-- UPDATE avatars SET … WHERE user_id = $1: it succeeds whether or not a row has the key.
update_row : String → (Row → Row) → Postgres → Error × Postgres
update_row user_id f p = elim (lookup user_id p.avatars) [
  | none ↦ (none, p)
  | some r ↦ (none, record p { avatars = insert user_id (f r) p.avatars })
]

unfoldable pub update_avatar_status :
    String → ProcessingStatus → String → Postgres → Error × Postgres
unfolding statement update_row null_string
update_avatar_status user_id status err_msg = statement some λ p.
    update_row user_id
      (λ r. record r {
        status = status;
        error_message = null_string err_msg;
        updated_at = stored_now p;
      })
      p

unfoldable pub mark_avatar_ready :
    String → String → String → String → ℕ → ℕ → ℕ → Postgres → Error × Postgres
unfolding statement update_row
mark_avatar_ready user_id original_key thumb_key content_type size width height =
    statement some λ p.
      update_row user_id
        (λ r. record r {
          status = status_ready;
          original_key = original_key;
          thumbnail_key = thumb_key;
          content_type = content_type;
          size_bytes = size;
          width = width;
          height = height;
          staging_key = "";
          error_message = none;
          updated_at = stored_now p;
        })
        p

exists : Option ℕ → Bool
exists none = false
exists (some _) = true

unfoldable pub is_message_processed : String → Postgres → Result Bool × Postgres
unfolding statement exists
is_message_processed message_id =
    statement err λ p. (ok (exists (lookup message_id p.processed)), p)

-- COALESCE(SUM(size_bytes), 0) … WHERE status = 'ready'
unfoldable pub sum_ready : Assoc Row → ℕ
sum_ready [] = 0
sum_ready ((_, r) ∷ rows) =
    let rest = sum_ready rows in if r.status == status_ready then r.size_bytes + rest else rest

-- SUM is of type numeric and does not wrap; Scan refuses what an int64 does not hold.
unfoldable pub total_storage_bytes : Postgres → Result ℕ × Postgres
unfolding statement
total_storage_bytes = statement err λ p.
    let total = sum_ready p.avatars in
    (if ltb total (2 ^ 63) then ok total else err (other "value out of range"), p)

-- ON CONFLICT (message_id) DO NOTHING
unfoldable pub mark_message_processed : String → Postgres → Error × Postgres
unfolding statement
mark_message_processed message_id = statement some λ p. elim (lookup message_id p.processed) [
  | none ↦ (none, record p { processed = insert message_id (stored_now p) p.processed })
  | some _ ↦ (none, p)
]

unfoldable pub ping : Postgres → Error × Postgres
unfolding statement
ping = statement some λ p. (none, p)

unfoldable pub close : Postgres → Error × Postgres
unfolding statement
close = statement some λ p. (none, p)

abbrev pub postgres_storage : Storage Postgres
postgres_storage = record {
  upsert_avatar = upsert_avatar;
  get_avatar = get_avatar;
  delete_avatar = delete_avatar;
  update_avatar_status = update_avatar_status;
  mark_avatar_ready = mark_avatar_ready;
  is_message_processed = is_message_processed;
  mark_message_processed = mark_message_processed;
  total_storage_bytes = total_storage_bytes;
  ping = ping;
  close = close;
}
