-- ===== src/Rdma.antt =====
-- The RDMA connection of src/network/rdma.
pub mod Connection
pub mod Layout
pub mod Connector
pub mod Create
pub mod Setup
pub mod Events
