-- ===== src/Server.antt =====
-- apps/web/src/lib/server: what stands between the network and the repository.
pub mod Attempts
pub mod Base32
pub mod Payloads
pub mod PushRoute
