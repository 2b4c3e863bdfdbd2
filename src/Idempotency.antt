-- ===== src/Idempotency.antt =====
-- middleware/: idempotent requests. So far the process-local store of idempotency_store.go.
pub mod Store
