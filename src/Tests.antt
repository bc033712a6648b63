-- ===== src/Tests.antt =====
-- Concrete inputs, and the theorems at them.
mod Codecs
mod Delivery
mod Buffers
mod Rdma
mod Images
mod Jobs
mod Handshaking
mod Engines
mod Folder
mod Unpacking
mod Addresses
mod Connecting
mod Offload
