-- ===== src/Tests/Storages.antt =====
-- Examples for the storages.
use avatars.Prelude.{◌≡◌, ◌≢◌, refl, some, List, [], ◌∷◌, arith, ok, lookup, map_values, eq_iff}
use mathlib.Core.List.{map}
use avatars.Models.{Avatar, zero_avatar}
use avatars.Storage.Mem
use avatars.Storage.Mem.{mem_storage}
use avatars.Storage.Postgres
use avatars.Storage.Postgres.{
  Postgres, Row, to_row, scan_avatar, null_string, sum_ready, postgres_storage,
}
use avatars.Storage.Ops.{Op, upsert, get, remove, perform_all}
use avatars.Storage.Agreement.{kept_answer, Agree, AllCovered, perform_all_agrees}
use avatars.Storage.Totals.{total_storage_bytes_agrees}
use avatars.Storage.Reads.{writes}
use avatars.Tests.Env.{microseconds, mem, pending, ready}

abbrev row_of : Avatar → Row
row_of a = record (to_row microseconds 0 a) { updated_at = 0 }

-- The tables that hold what `mem` holds.
abbrev tables : Postgres
tables = record {
  timestamptz = microseconds;
  now = 10;
  avatars = ("ann", row_of pending) ∷ ("bob", row_of ready) ∷ [];
  processed = [];
  faults = [];
}

tables-Agree : Agree mem tables
unfolding map_values scan_avatar to_row
tables-Agree = record {
  clock = refl;
  avatars = refl;
  processed = λ k. (λ e. e, λ e. e);
  faultless = refl;
}

abbrev newcomer : Avatar
newcomer = record zero_avatar { user_id = "cid" }

abbrev calls : List Op
calls = upsert newcomer ∷ get "cid" ∷ remove "ann" ∷ []

calls_covered : AllCovered calls tables
unfolding lookup
calls_covered = ((refl, (omega arith, omega arith, omega arith)), (tt, (tt, tt)))

perform_all_agrees_example :
    (map (kept_answer microseconds) (perform_all mem_storage calls mem).0
      ≡ (perform_all postgres_storage calls tables).0)
    × Agree (perform_all mem_storage calls mem).1 (perform_all postgres_storage calls tables).1
perform_all_agrees_example = perform_all_agrees calls mem tables tables-Agree calls_covered

abbrev ann_again : Avatar
ann_again = record zero_avatar { user_id = "ann" }

total_storage_bytes_agrees_example :
    ((Mem.total_storage_bytes mem).0 ≡ ok (sum_ready tables.avatars))
    × ((Postgres.total_storage_bytes tables).0 ≡ ok (sum_ready tables.avatars))
total_storage_bytes_agrees_example =
    total_storage_bytes_agrees mem tables tables-Agree (unfold sum_ready to_row in omega arith)

ann_is_other : writes (remove "ann") ≢ some "bob"
ann_is_other e = ground (arith, eq_iff "ann" "bob")
