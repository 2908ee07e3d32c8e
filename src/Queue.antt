-- ===== src/Queue.antt =====
-- src/aizk/background: the durable job queue of the CockroachDB profile and its portable worker.
pub mod Table
pub mod Client
pub mod Worker
pub mod Loop
pub mod Invariant
pub mod Exclusion
pub mod Backoff
pub mod Schedule
