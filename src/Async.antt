-- ===== src/Async.antt =====
-- The durable work queue of internal/async: the write-ahead log, the queue over it and the pool of
-- workers that drain it.
pub mod Wal
pub mod Queue
pub mod Pool
pub mod Processor
mod Tests
