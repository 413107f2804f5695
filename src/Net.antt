-- ===== src/Net.antt =====
-- The network layer: the byte buffer, the framing of messages, one connection's backpressure.
pub mod Buffer
pub mod Frame
pub mod Connection
pub mod Batch
pub mod TcpServer
