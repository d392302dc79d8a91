-- ===== src/System/Idempotency.antt =====
-- Idempotency of internal/queue/consumer.go over the table processed_messages of PostgreSQL.
use avatars.Prelude.{
  ℕ, String, Bool, true, false, ◌≡◌, none, some, List, [], ◌∷◌, arith, lookup, lookup-insert,
  eq_iff, Option-cases, inl, inr, ok, Error, Result,
}
use avatars.Storage.Postgres
use avatars.Storage.Postgres.{stored_now, Postgres, postgres_storage}
use avatars.Storage.Ops.{
  Op, upsert, get, remove, is_processed, mark_processed, set_status, mark_ready, perform,
  perform_all,
}
use avatars.Queue.{AvatarProcessMessage}
use avatars.Queue.Retry.{send_to_retry}
use avatars.Queue.Consumer.{Consumer, Delivery, with_id, handle_delivery}
use avatars.Recording.{recorded_consumer}
use avatars.Recording.Deliveries.{acts_of, runs, was_marked}
use avatars.System.OverPostgres.{db, beside}

module _ (id : String) (at : ℕ) where
  abbrev IsMarked : Postgres → Type 0
  IsMarked p = lookup id p.processed ≡ some at

  mark-IsMarked :
      (k : String) (p : Postgres) → IsMarked p → IsMarked (Postgres.mark_message_processed k p).1
  unfolding Postgres.mark_message_processed
  mark-IsMarked k p marked =
      ground (arith, eq_iff k id, lookup-insert k id (stored_now p) p.processed)

  -- No call takes a mark away, or changes its time.
  perform-IsMarked :
      (op : Op) (p : Postgres) → IsMarked p → IsMarked (perform postgres_storage op p).1
  unfolding perform Postgres.upsert_avatar Postgres.get_avatar Postgres.delete_avatar
      Postgres.update_avatar_status Postgres.mark_avatar_ready Postgres.is_message_processed
  perform-IsMarked (upsert a) p marked = ground (arith, marked)
  perform-IsMarked (get k) p marked = ground (arith, marked)
  perform-IsMarked (remove k) p marked = ground (arith, marked)
  perform-IsMarked (set_status k status msg) p marked = ground (arith, marked)
  perform-IsMarked (mark_ready k o t ct size width height) p marked = ground (arith, marked)
  perform-IsMarked (is_processed k) p marked = ground (arith, marked)
  perform-IsMarked (mark_processed k) p marked = mark-IsMarked k p marked

  perform_all-IsMarked :
      (ops : List Op) (p : Postgres) → IsMarked p → IsMarked (perform_all postgres_storage ops p).1
  unfolding perform_all
  perform_all-IsMarked [] p marked = marked
  perform_all-IsMarked (op ∷ ops) p marked =
      perform_all-IsMarked ops (perform postgres_storage op p).1 (perform-IsMarked op p marked)

-- A mark that was written is there.
marked_lem :
    (id : String) (p : Postgres)
    → (Postgres.mark_message_processed id p).0 ≡ none
    → (at : ℕ) × IsMarked id at (Postgres.mark_message_processed id p).1
unfolding Postgres.mark_message_processed
marked_lem id p h = elim (Option-cases (lookup id p.processed)) [
  | inl new ↦
      (stored_now p, ground (arith, eq_iff id id, lookup-insert id id (stored_now p) p.processed))
  | inr (at, old) ↦ (at, ground (arith, old))
]

-- A handler over PostgreSQL and the rest of the environment.
abbrev Handling : Type 0 → Type 0
Handling X = AvatarProcessMessage → Delivery → Postgres × X → Error × (Postgres × X)

module _ {X : Type 0} (c : Consumer X) (handler : Handling X) where
  -- The consumer over PostgreSQL, with the channel and the acknowledgements of `c`.
  abbrev pub over_db : Consumer (Postgres × X)
  over_db = record {
    ch = record { publish = λ exchange key m. beside (c.ch.publish exchange key m) };
    acks = record {
      ack = λ (p, x). (p, c.acks.ack x);
      nack = λ requeue (p, x). (p, c.acks.nack requeue x);
    };
    store = db;
    unmarshal = c.unmarshal;
    handler = handler;
  }

  -- The state that a delivery leaves.
  abbrev pub after : Delivery → Postgres → X → Postgres × X
  after d p x = (handle_delivery (recorded_consumer over_db) d ((p, x), [])).0

  runs-marked :
      (d : Delivery) (m : AvatarProcessMessage) (at : ℕ) (p : Postgres) (x : X)
      → c.unmarshal d.body ≡ some m
      → IsMarked (with_id d m).message_id at p
      → runs (acts_of over_db d (p, x)) ≡ 0
  unfolding handle_delivery runs Postgres.is_message_processed
  runs-marked d m at p x decodes marked = ground (arith, decodes, marked)

  module _ (d : Delivery) (m : AvatarProcessMessage) (p : Postgres) (x : X)
      (decodes : c.unmarshal d.body ≡ some m) where
    abbrev msg : AvatarProcessMessage
    msg = with_id d m

    abbrev looked : Result Bool × Postgres
    looked = Postgres.is_message_processed msg.message_id p

    abbrev ran : Error × (Postgres × X)
    ran = handler msg d (looked.1, x)

    abbrev marking : Error × Postgres
    marking = Postgres.mark_message_processed msg.message_id ran.1.0

    -- A delivery that marks its message looked it up in vain, its handler succeeded, and the mark is
    -- what it leaves.
    was_marked-ran :
        was_marked (acts_of over_db d (p, x)) ≡ true
        → (looked.0 ≡ ok false) × (ran.0 ≡ none) × (marking.0 ≡ none)
    unfolding handle_delivery was_marked send_to_retry
    was_marked-ran written =
        (ground (arith, decodes), ground (arith, decodes), ground (arith, decodes))

    after-ran : looked.0 ≡ ok false → ran.0 ≡ none → marking.0 ≡ none → (after d p x).0 ≡ marking.1
    unfolding handle_delivery
    after-ran new fine written = ground (arith, decodes)

    -- Over PostgreSQL: when a delivery has marked its message as processed, then, after any calls of the
    -- storage, in any order and with statements that fail, a delivery with the same message id does not
    -- run the handler.
    pub runs-after_marked :
        (ops : List Op) (y : X) (e : Delivery) (n : AvatarProcessMessage)
        → was_marked (acts_of over_db d (p, x)) ≡ true
        → c.unmarshal e.body ≡ some n
        → (with_id e n).message_id ≡ msg.message_id
        → runs (acts_of over_db e ((perform_all postgres_storage ops (after d p x).0).1, y)) ≡ 0
    runs-after_marked ops y e n written again same =
        let (new, fine, marked_ok) = was_marked-ran written in
        let (at, marked) = marked_lem msg.message_id ran.1.0 marked_ok in
        let left : IsMarked msg.message_id at (after d p x).0 =
          rw (after-ran new fine marked_ok) marked in
        let later : IsMarked (with_id e n).message_id at
            (perform_all postgres_storage ops (after d p x).0).1 =
          rw same (perform_all-IsMarked msg.message_id at ops (after d p x).0 left) in
        runs-marked e n at (perform_all postgres_storage ops (after d p x).0).1 y again later
