-- ===== src/Doca.antt =====
-- The engines over NVIDIA DOCA, of src/doca.
pub mod Objects
pub mod Core
pub mod Mmaps
pub mod Engine
pub mod Pci
pub mod CompressEngine
