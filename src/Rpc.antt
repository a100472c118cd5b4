-- ===== src/Rpc.antt =====
-- lab41/rpc: the remote procedure calls, without their sockets, threads and clocks.
pub mod Marshall
pub mod Connection
pub mod Stubs
pub mod Window
pub mod Server
pub mod Caller
pub mod Calls
