-- ===== src/Storage.antt =====
-- src/storage: the sharded in-memory map.
pub mod Dict
pub mod ShardedKv
