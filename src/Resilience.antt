-- ===== src/Resilience.antt =====
-- oracle-bridge/oracle_bridge/resilience.py: retries, degraded mode and the dead-letter queue.
pub mod Retry
pub mod Attempts
pub mod Backoff
pub mod Degraded
pub mod History
pub mod Queue
