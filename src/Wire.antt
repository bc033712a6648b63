-- ===== src/Wire.antt =====
-- src/utils/MsgFrame.h: frames of protobuf messages, over RDMA buffers and over TCP buffers.
pub mod Codec
pub mod RdmaFrame
pub mod TcpFrame
