-- ===== src/Cache.antt =====
-- The remote cache (rc): the partition table, its searches, its two memory schemes (compaction of
-- dynamic partitions and the buddy system) and the memcached engine on top.
pub mod Table
pub mod Dictionary
pub mod Accounting
pub mod Returns
pub mod Replacement
pub mod Fit
pub mod Compaction
pub mod Buddy
pub mod Engine
mod Tests
