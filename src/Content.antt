-- ===== src/Content.antt =====
-- How layers travel from the registry: src/host/server/content_server.cc, src/dpu/content_fetcher.cc
-- and pb/content.proto.
pub mod Messages
pub mod Client
pub mod Server
pub mod Order
pub mod Session
