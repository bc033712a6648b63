-- ===== src/Host.antt =====
-- The host: the command server, and the clients and engines behind it.
pub mod Command
pub mod Offload
pub mod Decompress
pub mod Untar
