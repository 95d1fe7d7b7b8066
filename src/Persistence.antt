-- ===== src/Persistence.antt =====
-- src/persistence: the write-ahead log, its recovery, and the durable key-value store on top of it.
pub mod Crc32
pub mod WalRecord
pub mod Replay
pub mod WalWriter
pub mod Recovery
pub mod DurableStorage
