-- ===== src/Storage.antt =====
-- internal/storage: the interface `Storage` (storage.go) over the states `W` of its environment.
-- Mem models mem.go and Postgres models postgres.go; the other children hold the proofs.
pub mod Mem
pub mod Postgres
pub mod Totals
pub mod Opening
pub mod Reads
pub mod RoundTrip
pub mod Ops
pub mod Agreement
use avatars.Prelude.{ℕ, String, Bool, Option, Error, Result}
use avatars.Models.{Avatar, ProcessingStatus}

-- A method takes the state and returns its results and the new state; contexts are left out.
pub record Storage (W : Type 0) : Type 0 where
  pub upsert_avatar : Avatar → W → Error × W
  pub get_avatar : String → W → Result (Option Avatar) × W
  pub delete_avatar : String → W → Error × W
  pub update_avatar_status : String → ProcessingStatus → String → W → Error × W
  -- user id, original key, thumbnail key, content type, size, width, height
  pub mark_avatar_ready : String → String → String → String → ℕ → ℕ → ℕ → W → Error × W
  pub is_message_processed : String → W → Result Bool × W
  pub mark_message_processed : String → W → Error × W
  pub total_storage_bytes : W → Result ℕ × W
  pub ping : W → Error × W
  pub close : W → Error × W
