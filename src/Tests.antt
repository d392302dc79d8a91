-- ===== src/Tests.antt =====
-- The theorems at concrete inputs, and tests of the definitions. The environments of the examples are
-- the storages themselves and small object stores and channels.
pub mod Env
mod Uploads
mod Deliveries
mod Works
mod Storages
mod Breakers
mod Images
mod Configs
mod Clients
mod Systems
mod Brokers
mod Routes
mod Rows
mod Programs
