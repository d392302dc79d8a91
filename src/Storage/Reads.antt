-- ===== src/Storage/Reads.antt =====
-- What a write changes for the reads that follow it.
use avatars.Prelude.{
  ℕ, String, ◌≡◌, ◌≢◌, refl, Option, none, some, arith, lookup, lookup-insert_ne, lookup-delete_ne,
  ap,
}
use avatars.Models.{Avatar, ProcessingStatus}
use avatars.Storage.Postgres
use avatars.Storage.Postgres.{Postgres, postgres_storage}
use avatars.Storage.Ops.{
  Op, upsert, get, remove, is_processed, mark_processed, set_status, mark_ready, perform,
}

-- The user whose avatar a call may write.
abbrev pub writes : Op → Option String
writes (upsert a) = some a.user_id
writes (remove k) = some k
writes (set_status k _ _) = some k
writes (mark_ready k _ _ _ _ _ _) = some k
writes _ = none

module _ {k j : String} (differ : k ≢ j) where
  pub upsert_frame :
      (a : Avatar) (p : Postgres)
      → a.user_id ≡ k
      → lookup j (Postgres.upsert_avatar a p).1.avatars ≡ lookup j p.avatars
  unfolding Postgres.upsert_avatar
  upsert_frame a p same = grind (arith, lookup-insert_ne)

  pub delete_frame :
      (p : Postgres) → lookup j (Postgres.delete_avatar k p).1.avatars ≡ lookup j p.avatars
  unfolding Postgres.delete_avatar
  delete_frame p = grind (arith, lookup-delete_ne)

  pub update_frame :
      (status : ProcessingStatus) (msg : String) (p : Postgres)
      → lookup j (Postgres.update_avatar_status k status msg p).1.avatars ≡ lookup j p.avatars
  unfolding Postgres.update_avatar_status
  update_frame status msg p = grind (arith, lookup-insert_ne)

  pub ready_frame :
      (original thumb content_type : String) (size width height : ℕ) (p : Postgres)
      → lookup j
          (Postgres.mark_avatar_ready k original thumb content_type size width height p).1.avatars
        ≡ lookup j p.avatars
  unfolding Postgres.mark_avatar_ready
  ready_frame original thumb content_type size width height p = grind (arith, lookup-insert_ne)

-- A call of the storage in PostgreSQL leaves the stored avatar of every other user as it was, also
-- when the statement fails.
pub perform_frame :
    (op : Op) (j : String) (p : Postgres)
    → writes op ≢ some j
    → lookup j (perform postgres_storage op p).1.avatars ≡ lookup j p.avatars
unfolding perform Postgres.get_avatar Postgres.is_message_processed Postgres.mark_message_processed
perform_frame (upsert a) j p other = upsert_frame (λ e. other (ap some e)) a p refl
perform_frame (remove k) j p other = delete_frame (λ e. other (ap some e)) p
perform_frame (set_status k status msg) j p other =
    update_frame (λ e. other (ap some e)) status msg p
perform_frame (mark_ready k original thumb content_type size width height) j p other =
    ready_frame (λ e. other (ap some e)) original thumb content_type size width height p
perform_frame (get k) j p other = ground arith
perform_frame (is_processed k) j p other = ground arith
perform_frame (mark_processed k) j p other = ground arith
