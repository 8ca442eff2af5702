-- ===== src/Client.antt =====
-- apps/web/src/lib/client: the local store of a browser, and how a synchronisation changes it.
pub mod Store
pub mod Conflicts
pub mod Merge
pub mod Deletes
pub mod Accept
pub mod Batches
pub mod Lease
pub mod References
pub mod Pulling
pub mod Resolve
pub mod Pushing
pub mod Rounds
