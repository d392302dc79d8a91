-- ===== src/System/OverPostgres.antt =====
-- The handlers and the worker over the tables of internal/storage/postgres.go, beside an object store and a
-- broker with states of their own.

use avatars.Storage.{Storage}
use avatars.Storage.Postgres.{Postgres, postgres_storage}
use avatars.Handler.{Handler}
use avatars.Worker.{ObjectStore, Service}

module _ {X : Type 0} where
  abbrev in_db {ℓ} : {A : Type ℓ} → (Postgres → A × Postgres) → Postgres × X → A × (Postgres × X)
  in_db f (p, x) = let (a, p1) = f p in (a, (p1, x))

  abbrev pub beside {ℓ} : {A : Type ℓ} → (X → A × X) → Postgres × X → A × (Postgres × X)
  beside f (p, x) = let (a, x1) = f x in (a, (p, x1))

  abbrev pub db : Storage (Postgres × X)
  db = record {
    upsert_avatar = λ a. in_db (postgres_storage.upsert_avatar a);
    get_avatar = λ k. in_db (postgres_storage.get_avatar k);
    delete_avatar = λ k. in_db (postgres_storage.delete_avatar k);
    update_avatar_status =
        λ k status msg. in_db (postgres_storage.update_avatar_status k status msg);
    mark_avatar_ready =
        λ k o t ct size w h. in_db (postgres_storage.mark_avatar_ready k o t ct size w h);
    is_message_processed = λ k. in_db (postgres_storage.is_message_processed k);
    mark_message_processed = λ k. in_db (postgres_storage.mark_message_processed k);
    total_storage_bytes = in_db postgres_storage.total_storage_bytes;
    ping = in_db postgres_storage.ping;
    close = in_db postgres_storage.close;
  }

  -- A service over PostgreSQL and an object store with states of its own.
  abbrev pub over_postgres : ObjectStore X → Service (Postgres × X)
  over_postgres objects = record {
    store = db;
    objects = record {
      upload = λ key content t. beside (objects.upload key content t);
      download = λ key. beside (objects.download key);
      delete = λ keys. beside (objects.delete keys);
    };
  }

  -- Handlers over PostgreSQL, with the object store, the publisher and the metrics of `h`.
  abbrev pub api_over_postgres : Handler X → Handler (Postgres × X)
  api_over_postgres h = record {
    store = db;
    objects = record {
      upload = λ key content t. beside (h.objects.upload key content t);
      delete = λ keys. beside (h.objects.delete keys);
      presigned_url = λ key expiry. beside (h.objects.presigned_url key expiry);
    };
    publisher = record {
      publish_avatar_process = λ msg. beside (h.publisher.publish_avatar_process msg);
    };
    metrics = record { count_upload = λ label (p, x). (p, h.metrics.count_upload label x) };
    max_upload = h.max_upload;
    url_expiry = h.url_expiry;
    db_breaker = h.db_breaker;
  }
