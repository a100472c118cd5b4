-- ===== src/Lock.antt =====
-- The lock service: the blocking server and the server of cached locks.
pub mod Protocol
pub mod Server
pub mod Cache
pub mod Client
pub mod Cluster
