-- ===== src/Bloom.antt =====
-- libsuc/BloomFilter: a counting Bloom filter.
pub mod Filter
pub mod Counts
mod Tests
