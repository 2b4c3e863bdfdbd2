-- ===== src/Queue.antt =====
-- queue/: the process-local task tracker.
pub mod Tracker
