-- ===== src/Bloom.antt =====
-- bloom/bloom.go: the Bloom filter, the HyperLogLog counter and the Count-Min sketch. The 64-bit
-- FNV-1a sum of a key is the Go library's, and is a parameter wherever it is used.
pub mod Filter
pub mod HyperLogLog
pub mod CountMin
