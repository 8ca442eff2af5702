-- ===== src/Repository.antt =====
-- apps/web/src/lib/server/repository.ts: the server's store of notes, notebooks and devices.
pub mod Store
pub mod Refs
pub mod Chunks
pub mod Log
pub mod Queries
pub mod Writes
pub mod Devices
pub mod Deletes
pub mod Consistency
pub mod Duplicates
pub mod Verdicts
pub mod Answers
pub mod Push
pub mod Pull
pub mod Maintenance
