-- ===== src/Protocol.antt =====
-- The frames and messages of the CQL native protocol v4: include/cassandra/io/protocol and
-- src/io/protocol.
pub mod Frame
pub mod Lz4
pub mod Requests
pub mod Columns
pub mod Responses
