-- ===== src/Inet.antt =====
-- The connection layer: queues, acknowledgements and the wire protocol of inet/.
pub mod AckMap
pub mod Connection
pub mod Queue
