-- ===== src/Storage/Totals.antt =====
-- TotalStorageBytes: the loop of mem.go against the SUM of postgres.go.
use avatars.Prelude.{
  ℕ, ◌+◌, ◌^◌, ◌<◌, ◌≡◌, ap, sym, refl, ◌==◌, ◌%◌, if◌then◌else◌, ◌∙◌, [], ◌∷◌, arith, ok, lt→ltb,
  map_values, Assoc,
}
use avatars.Models.{Avatar, status_ready}
use avatars.Storage.Mem
use avatars.Storage.Mem.{MemStorage, total_from}
use avatars.Storage.Postgres
use avatars.Storage.Postgres.{Postgres, Row, scan_avatar, sum_ready}
use avatars.Storage.Agreement.{Agree, kept}

-- While the sum fits, no addition of the loop wraps.
total_from-eq-add-sum_ready :
    (total : ℕ) (rows : Assoc Row)
    → total + sum_ready rows < 2 ^ 64
    → total_from total (map_values scan_avatar rows) ≡ total + sum_ready rows
unfolding total_from sum_ready map_values scan_avatar
total_from-eq-add-sum_ready total [] fits = omega arith
total_from-eq-add-sum_ready total ((k, r) ∷ rows) fits = ground (
  arith,
  total_from-eq-add-sum_ready total rows,
  total_from-eq-add-sum_ready (total + r.size_bytes) rows,
)

-- The times do not count.
total_from-kept :
    (timestamptz : ℕ → ℕ) (total : ℕ) (m : Assoc Avatar)
    → total_from total (map_values (kept timestamptz) m) ≡ total_from total m
unfolding total_from map_values
total_from-kept timestamptz total [] = refl
total_from-kept timestamptz total ((k, a) ∷ m) =
    total_from-kept timestamptz
      (if a.status == status_ready then (total + a.size_bytes) % 2 ^ 64 else total) m

-- When the storages agree and the sizes of the ready avatars sum to less than 2 ^ 63, both report
-- that sum.
pub total_storage_bytes_agrees :
    (m : MemStorage) (p : Postgres)
    → Agree m p
    → sum_ready p.avatars < 2 ^ 63
    → ((Mem.total_storage_bytes m).0 ≡ ok (sum_ready p.avatars))
      × ((Postgres.total_storage_bytes p).0 ≡ ok (sum_ready p.avatars))
unfolding Mem.total_storage_bytes Postgres.total_storage_bytes
total_storage_bytes_agrees m p h fits = (
  ap ok (
      sym (total_from-kept p.timestamptz 0 m.avatars)
      ∙ rw (h.avatars) (total_from-eq-add-sum_ready 0 p.avatars (omega arith) ∙ omega arith)),
  ground (arith, lt→ltb (sum_ready p.avatars) (2 ^ 63) fits),
)
