-- ===== src/Tests.antt =====
-- Sample data, runs of the model on it, and the theorems at inputs that meet their hypotheses.
pub mod Sample
mod SyncSpec
mod Push
mod Store
mod Pull
mod Maintenance
mod Client
mod Sync
mod Server
