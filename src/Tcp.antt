-- ===== src/Tcp.antt =====
-- The TCP side: the byte buffer of a connection, the connection, and the connector of a client.
pub mod Buffer
pub mod Connection
pub mod Connector
