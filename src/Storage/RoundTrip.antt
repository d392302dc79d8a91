-- ===== src/Storage/RoundTrip.antt =====
-- What a storage gives back of an avatar that it was handed: internal/storage/mem.go and
-- internal/storage/postgres.go.
use avatars.Prelude.{ℕ, ap, ◌≡◌, Option, none, some, [], ok, arith, eq_refl, lookup, lookup-insert}
use avatars.Models.{Avatar}
use avatars.Storage.Mem
use avatars.Storage.Mem.{MemStorage, stamped}
use avatars.Storage.Postgres
use avatars.Storage.Postgres.{Postgres, Row, to_row, scan_avatar, on_conflict}
use avatars.Storage.Agreement.{kept, Fits, scan_avatar-to_row}

-- The creation time that PostgreSQL keeps of a user that it knows.
abbrev pub created_by : Option Row → ℕ → ℕ
created_by none now = now
created_by (some old) now = old.created_at

on_conflict_lem :
    (timestamptz : ℕ → ℕ) (old : Option Row) (now : ℕ) (a : Avatar)
    → scan_avatar (on_conflict old (to_row timestamptz now a)) ≡ (
        let new = kept timestamptz (stamped now a) in
        record new { created_at = created_by old new.created_at })
unfolding on_conflict scan_avatar
on_conflict_lem timestamptz none now a = scan_avatar-to_row timestamptz now a
on_conflict_lem timestamptz (some old) now a =
    ap (λ (x : Avatar). record x { created_at = old.created_at })
      (scan_avatar-to_row timestamptz now a)

-- What is upserted is what a get of its user gives back, with the time of the call as update time: in
-- memory with the avatar's creation time, or the time of the call where it has none, and in PostgreSQL
-- with the creation time of the user's first upsert, and both times as its columns keep them. The texts
-- of error messages come back too, though an empty one is stored as NULL. The two statements of
-- PostgreSQL must not fail, and the numbers fit its columns.
pub upsert-get :
    (a : Avatar) (m : MemStorage) (p : Postgres)
    → p.faults ≡ []
    → Fits a.size_bytes a.width a.height
    → ((Mem.get_avatar a.user_id (Mem.upsert_avatar a m).1).0 ≡ ok (some (stamped m.now a)))
      × ((Postgres.get_avatar a.user_id (Postgres.upsert_avatar a p).1).0
          ≡ ok (
              some (
                let new = kept p.timestamptz (stamped p.now a) in
                record new {
                  created_at = created_by (lookup a.user_id p.avatars) new.created_at;
                })))
unfolding Mem.get_avatar Mem.upsert_avatar Postgres.get_avatar Postgres.upsert_avatar
upsert-get a m p sound _ =
    let old = lookup a.user_id p.avatars in
    let row = on_conflict old (to_row p.timestamptz p.now a) in
    (
      ground
          (arith, eq_refl a.user_id, lookup-insert a.user_id a.user_id (stamped m.now a) m.avatars),
      ground (
        arith,
        eq_refl a.user_id,
        lookup-insert a.user_id a.user_id row p.avatars,
        on_conflict_lem p.timestamptz old p.now a,
      ),
    )
