-- ===== src/Dpu.antt =====
-- The DPU side, of src/dpu: the client of the decompression on the host, and the server of offloading.
pub mod Decompress
pub mod OffloadServer
