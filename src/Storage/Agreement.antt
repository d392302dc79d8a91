-- ===== src/Storage/Agreement.antt =====
-- The two storages agree, call by call, while updates name rows that exist and no fault occurs.
use mathlib.Core.Option
use mathlib.Core.List.{map}
use avatars.Prelude.{
  ℕ, ◌<◌, ◌^◌, sym, ap, ◌∙◌, some, ok, err, String, ◌≡◌, ◌≢◌, ◌↔◌, refl, inl, inr, none, List, [],
  ◌∷◌, eq_iff, arith, lookup, map_values, lookup-map_values, map_values-insert, map_values-delete,
  lookup-insert, Option-cases,
}
use avatars.Models.{Avatar, ProcessingStatus, status_ready}
use avatars.Storage.Ops.{
  Answer, error, avatar, flag, Op, upsert, get, remove, is_processed, mark_processed, set_status,
  mark_ready, perform, perform_all,
}
use avatars.Storage.Mem
use avatars.Storage.Mem.{MemStorage, mem_storage}
use avatars.Storage.Postgres
use avatars.Storage.Postgres.{
  Postgres, Row, stored_now, postgres_storage, scan_avatar, to_row, null_string,
}

-- An avatar with its times as columns of PostgreSQL keep them.
abbrev pub kept : (ℕ → ℕ) → Avatar → Avatar
kept timestamptz a = record a {
  created_at = timestamptz a.created_at;
  updated_at = timestamptz a.updated_at;
}

-- An answer, the same.
abbrev pub kept_answer : (ℕ → ℕ) → Answer → Answer
kept_answer timestamptz (error e) = error e
kept_answer timestamptz (flag b) = flag b
kept_answer timestamptz (avatar (err e)) = avatar (err e)
kept_answer timestamptz (avatar (ok none)) = avatar (ok none)
kept_answer timestamptz (avatar (ok (some a))) = avatar (ok (some (kept timestamptz a)))

-- What the program can see of the two states is the same, but for what PostgreSQL does not keep of
-- times: the clock, the avatars by user id, and the set of processed messages.
pub record Agree (m : MemStorage) (p : Postgres) : Type 0 where
  pub clock : p.now ≡ m.now
  pub avatars : map_values (kept p.timestamptz) m.avatars ≡ map_values scan_avatar p.avatars
  pub processed : (k : String) → (lookup k m.processed ≡ none) ↔ (lookup k p.processed ≡ none)
  pub faultless : p.faults ≡ []

-- The sizes and sides that the columns hold.
abbrev pub Fits : ℕ → ℕ → ℕ → Type 0
Fits size width height = (size < 2 ^ 63) × (width < 2 ^ 31) × (height < 2 ^ 31)

-- An upsert is of a new user, and an update is of a user that has a row; numbers fit the columns.
abbrev pub IsCovered : Op → Postgres → Type 0
IsCovered (upsert a) p = (lookup a.user_id p.avatars ≡ none) × Fits a.size_bytes a.width a.height
IsCovered (set_status user_id _ _) p = lookup user_id p.avatars ≢ none
IsCovered (mark_ready user_id _ _ _ size width height) p =
    (lookup user_id p.avatars ≢ none) × Fits size width height
IsCovered _ p = Unit

pub null_string-coalesce : (s : String) → Postgres.coalesce (null_string s) ≡ s
unfolding null_string
null_string-coalesce s = ground (arith, eq_iff s "")

-- A row that is written and read back is the avatar with its time stamps, as the columns keep them.
pub scan_avatar-to_row :
    (timestamptz : ℕ → ℕ) (now : ℕ) (a : Avatar)
    → scan_avatar (to_row timestamptz now a) ≡ kept timestamptz (Mem.stamped now a)
unfolding scan_avatar to_row Mem.stamped
scan_avatar-to_row timestamptz now a = ground (arith, eq_iff a.error_message "")

module _ {m : MemStorage} {p : Postgres} (h : Agree m p) where
  -- One call has equal answers and leaves states that agree.
  abbrev StepAgrees : Op → Type 0
  StepAgrees op =
      (kept_answer p.timestamptz (perform mem_storage op m).0 ≡ (perform postgres_storage op p).0)
      × Agree (perform mem_storage op m).1 (perform postgres_storage op p).1

  pub lookup_agrees :
      (k : String)
      → Option.map (kept p.timestamptz) (lookup k m.avatars)
        ≡ Option.map scan_avatar (lookup k p.avatars)
  lookup_agrees k =
      sym (lookup-map_values (kept p.timestamptz) k m.avatars)
      ∙ ap (lookup k) h.avatars
      ∙ lookup-map_values scan_avatar k p.avatars

  -- A user that has a row has an avatar in memory, the same.
  held :
      (k : String) (r : Row)
      → lookup k p.avatars ≡ some r
      → (a : Avatar) × (lookup k m.avatars ≡ some a) × (kept p.timestamptz a ≡ scan_avatar r)
  unfolding scan_avatar
  held k r found = elim (Option-cases (lookup k m.avatars)) [
    | inl missing ↦ absurd (ground (arith, lookup_agrees k))
    | inr (a, there) ↦ (a, there, ground (arith, lookup_agrees k))
  ]

  upsert_agrees : (a : Avatar) → lookup a.user_id p.avatars ≡ none → StepAgrees (upsert a)
  unfolding perform Mem.upsert_avatar Postgres.upsert_avatar
  upsert_agrees a fresh = (
    ground arith,
    record {
      clock = ground arith;
      avatars = ground (
        arith,
        h.avatars,
        scan_avatar-to_row p.timestamptz m.now a,
        map_values-insert (kept p.timestamptz) a.user_id (Mem.stamped m.now a) m.avatars,
        map_values-insert scan_avatar a.user_id (to_row p.timestamptz m.now a) p.avatars,
      );
      processed = λ j. ground (arith, h.processed j);
      faultless = ground arith;
    },
  )

  get_agrees : (k : String) → StepAgrees (get k)
  unfolding perform Mem.get_avatar Postgres.get_avatar
  get_agrees k = (
    ground (arith, lookup_agrees k),
    record {
      clock = ground arith;
      avatars = ground arith;
      processed = λ j. ground (arith, h.processed j);
      faultless = ground arith;
    },
  )

  remove_agrees : (k : String) → StepAgrees (remove k)
  unfolding perform Mem.delete_avatar Postgres.delete_avatar
  remove_agrees k = (
    ground (arith, lookup_agrees k),
    record {
      clock = ground (arith, lookup_agrees k);
      avatars = ground (
        arith,
        lookup_agrees k,
        h.avatars,
        map_values-delete (kept p.timestamptz) k m.avatars,
        map_values-delete scan_avatar k p.avatars,
      );
      processed = λ j. ground (arith, lookup_agrees k, h.processed j);
      faultless = ground (arith, lookup_agrees k);
    },
  )

  set_status_agrees :
      (k : String) (status : ProcessingStatus) (msg : String)
      → lookup k p.avatars ≢ none
      → StepAgrees (set_status k status msg)
  unfolding perform Mem.update_avatar_status Postgres.update_avatar_status scan_avatar
  set_status_agrees k status msg present = elim (Option-cases (lookup k p.avatars)) [
    | inl missing ↦ absurd (present missing)
    | inr (r, found) ↦
        let row : Row = record r {
          status = status;
          error_message = null_string msg;
          updated_at = stored_now p;
        } in
        let (a, there, same) = held k r found in
        (
          ground (arith, lookup_agrees k),
          record {
            clock = ground (arith, lookup_agrees k);
            avatars = ground (
              arith,
              h.avatars,
              there,
              same,
              eq_iff msg "",
              map_values-insert (kept p.timestamptz) k (Mem.with_status status msg m.now a)
                  m.avatars,
              map_values-insert scan_avatar k row p.avatars,
            );
            processed = λ j. ground (arith, lookup_agrees k, h.processed j);
            faultless = ground arith;
          },
        )
  ]

  mark_ready_agrees :
      (k original thumb content_type : String) (size width height : ℕ)
      → lookup k p.avatars ≢ none
      → StepAgrees (mark_ready k original thumb content_type size width height)
  unfolding perform Mem.mark_avatar_ready Mem.made_ready Postgres.mark_avatar_ready scan_avatar
  mark_ready_agrees k original thumb content_type size width height present =
      elim (Option-cases (lookup k p.avatars)) [
        | inl missing ↦ absurd (present missing)
        | inr (r, found) ↦
            let row : Row = record r {
              status = status_ready;
              original_key = original;
              thumbnail_key = thumb;
              content_type = content_type;
              size_bytes = size;
              width = width;
              height = height;
              staging_key = "";
              error_message = none;
              updated_at = stored_now p;
            } in
            let (a, there, same) = held k r found in
            (
              ground (arith, lookup_agrees k),
              record {
                clock = ground (arith, lookup_agrees k);
                avatars = ground (
                  arith,
                  h.avatars,
                  there,
                  same,
                  map_values-insert (kept p.timestamptz) k
                      (Mem.made_ready original thumb content_type size width height m.now a)
                      m.avatars,
                  map_values-insert scan_avatar k row p.avatars,
                );
                processed = λ j. ground (arith, lookup_agrees k, h.processed j);
                faultless = ground arith;
              },
            )
      ]

  is_processed_agrees : (k : String) → StepAgrees (is_processed k)
  unfolding perform Mem.is_message_processed Postgres.is_message_processed
  is_processed_agrees k = (
    ground (arith, h.processed k),
    record {
      clock = ground arith;
      avatars = ground arith;
      processed = λ j. ground (arith, h.processed j);
      faultless = ground arith;
    },
  )

  mark_processed_agrees : (k : String) → StepAgrees (mark_processed k)
  unfolding perform Mem.mark_message_processed Postgres.mark_message_processed
  mark_processed_agrees k = (
    ground (arith, h.processed k),
    record {
      clock = ground arith;
      avatars = ground arith;
      processed = λ j. ground (
        arith,
        h.processed j,
        h.processed k,
        eq_iff k j,
        lookup-insert k j m.now m.processed,
        lookup-insert k j (stored_now p) p.processed,
      );
      faultless = ground arith;
    },
  )

perform_agrees :
    {m : MemStorage} {p : Postgres} (h : Agree m p) (op : Op) → IsCovered op p → StepAgrees h op
perform_agrees h (upsert a) c = upsert_agrees h a c.0
perform_agrees h (get k) _ = get_agrees h k
perform_agrees h (remove k) _ = remove_agrees h k
perform_agrees h (set_status k status msg) c = set_status_agrees h k status msg c
perform_agrees h (mark_ready k original thumb content_type size width height) c =
    mark_ready_agrees h k original thumb content_type size width height c.0
perform_agrees h (is_processed k) _ = is_processed_agrees h k
perform_agrees h (mark_processed k) _ = mark_processed_agrees h k

perform-timestamptz :
    (op : Op) (p : Postgres) → (perform postgres_storage op p).1.timestamptz ≡ p.timestamptz
unfolding perform Postgres.upsert_avatar Postgres.get_avatar Postgres.delete_avatar
    Postgres.update_avatar_status Postgres.mark_avatar_ready Postgres.is_message_processed
    Postgres.mark_message_processed
perform-timestamptz (upsert a) p = ground arith
perform-timestamptz (get k) p = ground arith
perform-timestamptz (remove k) p = ground arith
perform-timestamptz (set_status k status msg) p = ground arith
perform-timestamptz (mark_ready k original thumb content_type size width height) p = ground arith
perform-timestamptz (is_processed k) p = ground arith
perform-timestamptz (mark_processed k) p = ground arith

-- Every call of a sequence is covered at the state that it meets.
abbrev pub AllCovered : List Op → Postgres → Type 0
AllCovered [] p = Unit
AllCovered (op ∷ ops) p = IsCovered op p × AllCovered ops (perform postgres_storage op p).1

-- From states that agree, a sequence of covered calls gets the same answers from both storages, and
-- leaves states that agree, but for what PostgreSQL's columns do not keep of the times of an avatar. A
-- call is covered when an upsert is of a new user, an update is of a user that has a row, and sizes and
-- sides fit the columns.
pub perform_all_agrees :
    (ops : List Op) (m : MemStorage) (p : Postgres)
    → Agree m p
    → AllCovered ops p
    → (map (kept_answer p.timestamptz) (perform_all mem_storage ops m).0
        ≡ (perform_all postgres_storage ops p).0)
      × Agree (perform_all mem_storage ops m).1 (perform_all postgres_storage ops p).1
unfolding perform_all
perform_all_agrees [] m p h _ = (refl, h)
perform_all_agrees (op ∷ ops) m p h (here, later) =
    let (same, h') = perform_agrees h op here in
    let (rest, h'') = perform_all_agrees ops _ _ h' later in
    let keeps = perform-timestamptz op p in
    (
      cc (
          ap
            (λ keep.
              map (kept_answer keep) (perform_all mem_storage ops (perform mem_storage op m).1).0)
            keeps),
      h'',
    )
