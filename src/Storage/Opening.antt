-- ===== src/Storage/Opening.antt =====
-- NewPostgresStorage and RecordDBStats of internal/storage/postgres.go over what they call of
-- database/sql and the gauge of internal/metrics.
use avatars.Prelude.{ℕ, ◌+◌, ◌-◌, ◌≡◌, String, none, some, arith, Error}

pub record Database (W : Type 0) : Type 0 where
  -- sql.Open("postgres", dsn)
  pub open_db : String → W → Error × W
  pub ping : W → Error × W
  pub close : W → Error × W
  -- db.Stats().OpenConnections
  pub open_connections : W → ℕ
  -- metrics.DBConnectionsOpen.Set
  pub set_connections : ℕ → W → W

module _ {W : Type 0} (db : Database W) where
  unfoldable pub record_db_stats : W → W
  record_db_stats w = db.set_connections (db.open_connections w) w

  pinged : Error → W → Error × W
  pinged (some e) w = let (_, w1) = db.close w in (some e, w1)
  pinged none w = (none, record_db_stats w)

  opened : Error → W → Error × W
  opened (some e) w = (some e, w)
  opened none w = let (e, w1) = db.ping w in pinged e w1

  unfoldable pub new_postgres_storage : String → W → Error × W
  unfolding pinged opened record_db_stats
  new_postgres_storage dsn w = let (e, w1) = db.open_db dsn w in opened e w1

abbrev when_done : Error → ℕ → ℕ → ℕ
when_done none n m = n
when_done (some _) n m = m

module _ {W : Type 0} where
  -- The same, with the open pools of connections counted.
  abbrev counted : Database W → Database (W × ℕ)
  counted db = record {
    open_db = λ dsn (w, n). let (e, w1) = db.open_db dsn w in (e, (w1, when_done e (n + 1) n));
    ping = λ (w, n). let (e, w1) = db.ping w in (e, (w1, n));
    close = λ (w, n). let (e, w1) = db.close w in (e, (w1, n - 1));
    open_connections = λ s. db.open_connections s.0;
    set_connections = λ m (w, n). (db.set_connections m w, n);
  }

  -- NewPostgresStorage leaves a pool open exactly when it returns no error.
  pub new_postgres_storage-open :
      (db : Database W) (dsn : String) (w : W)
      → let r = new_postgres_storage (counted db) dsn (w, 0) in r.1.1 ≡ when_done r.0 1 0
  unfolding new_postgres_storage
  new_postgres_storage-open db dsn w = ground arith
