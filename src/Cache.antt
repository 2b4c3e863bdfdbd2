-- ===== src/Cache.antt =====
-- cache/: the stores of bounded.go and cache.go, the interface that they share, and the store of
-- two levels. redis.go is left out.
pub mod Stores
pub mod Bounded
pub mod Memory
pub mod Tiers
