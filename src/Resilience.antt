-- ===== src/Resilience.antt =====
-- resilience/: the circuit breaker and the concurrency limiter of resilience.go, and retry.go.
pub mod Breaker
pub mod Limiter
pub mod Retry
