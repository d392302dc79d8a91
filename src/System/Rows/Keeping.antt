-- ===== src/System/Rows/Keeping.antt =====
-- Every row stays good, whatever the order of the calls.
use avatars.Prelude.{
  ℕ, String, true, ◌==◌, Option, none, some, List, [], ◌∷◌, ◌≡◌, refl, arith, Assoc, lookup, insert,
  delete, Error, eq_iff, eq_refl, Bool-cases, Option-cases, inl, inr,
}
use avatars.Models.{Avatar, valid_status, status_ready}
use avatars.Handler.Upload.{staging_key_of}
use avatars.Storage.Ops.{
  Op, upsert, get, remove, is_processed, mark_processed, set_status, mark_ready, perform,
}
use avatars.Storage.Postgres
use avatars.Storage.Postgres.{
  Postgres, Row, stored_now, postgres_storage, to_row, on_conflict, null_string,
}
use avatars.System.Rows.{is_own, is_consistent, good_row, good_rows, is_made}

good_rows-insert :
    (k : String) (r : Row) (rows : Assoc Row)
    → good_row k r ≡ true
    → good_rows rows ≡ true
    → good_rows (insert k r rows) ≡ true
unfolding good_rows insert
good_rows-insert k r [] g h = ground arith
good_rows-insert k r ((held, old) ∷ rows) g h = ground (arith, good_rows-insert k r rows g)

good_rows-delete :
    (k : String) (rows : Assoc Row) → good_rows rows ≡ true → good_rows (delete k rows) ≡ true
unfolding good_rows delete
good_rows-delete k [] h = refl
good_rows-delete k ((held, old) ∷ rows) h = ground (arith, good_rows-delete k rows)

pub good_rows-lookup :
    (k : String) (rows : Assoc Row) (r : Row)
    → good_rows rows ≡ true
    → lookup k rows ≡ some r
    → good_row k r ≡ true
unfolding good_rows lookup
good_rows-lookup k [] r h e = ground arith
good_rows-lookup k ((held, old) ∷ rows) r h e =
    ground (arith, good_rows-lookup k rows r, eq_iff held k)

-- The row that an upsert leaves.
inserted_good :
    (timestamptz : ℕ → ℕ) (a : Avatar) (now created_at : ℕ)
    → is_made (upsert a) ≡ true
    → good_row a.user_id (record (to_row timestamptz now a) { created_at = created_at }) ≡ true
unfolding good_row is_own is_consistent is_made to_row valid_status
inserted_good timestamptz a now created_at made =
    let status : a.status ≡ "pending" = (eq_iff _ _).0 (ground arith) in
    let original : a.original_key ≡ "" = (eq_iff _ _).0 (ground arith) in
    let thumb : a.thumbnail_key ≡ "" = (eq_iff _ _).0 (ground arith) in
    let staging : (a.staging_key == staging_key_of a.user_id a.message_id) ≡ true = ground arith in
    rw (status, original, thumb, eq_refl a.user_id, staging) (ground arith)

upserted_good :
    (timestamptz : ℕ → ℕ) (a : Avatar) (now : ℕ) (old : Option Row)
    → is_made (upsert a) ≡ true
    → good_row a.user_id (on_conflict old (to_row timestamptz now a)) ≡ true
unfolding on_conflict
upserted_good timestamptz a now none made =
    inserted_good timestamptz a now (to_row timestamptz now a).created_at made
upserted_good timestamptz a now (some r) made = inserted_good timestamptz a now r.created_at made

abbrev pub with_status : ℕ → String → String → Row → Row
with_status now status msg r = record r {
  status = status;
  error_message = null_string msg;
  updated_at = now;
}

is_own-with_status :
    (k status msg : String) (now : ℕ) (r : Row)
    → is_own k (with_status now status msg r) ≡ is_own k r
unfolding is_own
is_own-with_status k status msg now r = refl

with_status_good :
    (k status msg : String) (now : ℕ) (r : Row)
    → is_made (set_status k status msg) ≡ true
    → good_row k r ≡ true
    → good_row k (with_status now status msg r) ≡ true
unfolding good_row is_consistent is_made valid_status
with_status_good k status msg now r made good = elim (Bool-cases (status == "processing")) [
  | inl e ↦
      rw ((eq_iff status "processing").0 e)
        (ground (arith, is_own-with_status k "processing" msg now r))
  | inr other ↦
      rw ((eq_iff status "failed").0 (ground arith))
        (ground (arith, is_own-with_status k "failed" msg now r))
]

abbrev pub completed : ℕ → String → String → String → ℕ → ℕ → ℕ → Row → Row
completed now original thumb content_type size width height r = record r {
  status = status_ready;
  original_key = original;
  thumbnail_key = thumb;
  content_type = content_type;
  size_bytes = size;
  width = width;
  height = height;
  staging_key = "";
  error_message = none;
  updated_at = now;
}

completed_good :
    (k original thumb content_type : String) (size width height now : ℕ) (r : Row)
    → is_made (mark_ready k original thumb content_type size width height) ≡ true
    → good_row k r ≡ true
    → good_row k (completed now original thumb content_type size width height r) ≡ true
unfolding good_row is_own is_consistent is_made valid_status
completed_good k original thumb content_type size width height now r made good = ground arith

module _ (p : Postgres) (good : good_rows p.avatars ≡ true) where
  -- What a call leaves.
  abbrev LeavesGood : Op → Type 0
  LeavesGood op = good_rows (perform postgres_storage op p).1.avatars ≡ true

  upsert_good : (a : Avatar) → is_made (upsert a) ≡ true → LeavesGood (upsert a)
  unfolding perform Postgres.upsert_avatar
  upsert_good a made =
      let old = lookup a.user_id p.avatars in
      let row = on_conflict old (to_row p.timestamptz p.now a) in
      let fine = upserted_good p.timestamptz a p.now old made in
      ground (arith, good_rows-insert a.user_id row p.avatars fine good)

  remove_good : (k : String) → LeavesGood (remove k)
  unfolding perform Postgres.delete_avatar
  remove_good k = ground (arith, good_rows-delete k p.avatars good)

  set_status_good :
      (k status msg : String)
      → is_made (set_status k status msg) ≡ true
      → LeavesGood (set_status k status msg)
  unfolding perform Postgres.update_avatar_status
  set_status_good k status msg made = elim (Option-cases (lookup k p.avatars)) [
    | inl missing ↦ ground arith
    | inr (r, found) ↦
        let fine =
          with_status_good k status msg (stored_now p) r made
            (good_rows-lookup k p.avatars r good found) in
        ground
          (arith, good_rows-insert k (with_status (stored_now p) status msg r) p.avatars fine good)
  ]

  mark_ready_good :
      (k original thumb content_type : String) (size width height : ℕ)
      → is_made (mark_ready k original thumb content_type size width height) ≡ true
      → LeavesGood (mark_ready k original thumb content_type size width height)
  unfolding perform Postgres.mark_avatar_ready
  mark_ready_good k original thumb content_type size width height made =
      elim (Option-cases (lookup k p.avatars)) [
        | inl missing ↦ ground arith
        | inr (r, found) ↦
            let held = good_rows-lookup k p.avatars r good found in
            let row = completed (stored_now p) original thumb content_type size width height r in
            let fine =
              completed_good k original thumb content_type size width height (stored_now p) r made
                held in
            ground (arith, good_rows-insert k row p.avatars fine good)
      ]

  perform_good : (op : Op) → is_made op ≡ true → LeavesGood op
  unfolding perform Postgres.get_avatar Postgres.is_message_processed
      Postgres.mark_message_processed
  perform_good (upsert a) made = upsert_good a made
  perform_good (remove k) made = remove_good k
  perform_good (set_status k status msg) made = set_status_good k status msg made
  perform_good (mark_ready k original thumb content_type size width height) made =
      mark_ready_good k original thumb content_type size width height made
  perform_good (get k) made = ground (arith, good)
  perform_good (is_processed k) made = ground (arith, good)
  perform_good (mark_processed k) made = ground (arith, good)

-- The states of the database: the calls that the program makes come in any order, and in between the
-- clock goes on and errors of the driver come up.
pub data Reach : Postgres → Type 0 where
  empty :
      (timestamptz : ℕ → ℕ) (now : ℕ) (faults : List Error)
      → Reach (record {
        timestamptz = timestamptz;
        now = now;
        avatars = [];
        processed = [];
        faults = faults;
      })
  called :
      (p : Postgres) (op : Op)
      → is_made op ≡ true
      → Reach p
      → Reach (perform postgres_storage op p).1
  elapsed :
      (p : Postgres) (now : ℕ) (faults : List Error)
      → Reach p
      → Reach (record p { now = now; faults = faults })

Reach-good : (p : Postgres) → Reach p → good_rows p.avatars ≡ true
unfolding good_rows
Reach-good _ (empty timestamptz now faults) = refl
Reach-good _ (called p op made before) = perform_good p (Reach-good p before) op made
Reach-good _ (elapsed p now faults before) = Reach-good p before

-- In every state that the calls of the program lead to, in whatever order they come, whichever
-- statements fail and however the clock goes, the row that is found for a user is the user's: its keys
-- are the user's own or absent, its status is one of the four, and a ready row has both keys, no staged
-- file, sides of 1 to 512 and the type of an image.
pub Reach-good_row :
    (p : Postgres) (user_id : String) (r : Row)
    → Reach p
    → lookup user_id p.avatars ≡ some r
    → good_row user_id r ≡ true
Reach-good_row p user_id r reached found =
    good_rows-lookup user_id p.avatars r (Reach-good p reached) found
