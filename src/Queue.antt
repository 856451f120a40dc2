-- ===== src/Queue.antt =====
-- app/queue: what a task may use, and doing it once.
mod Examples
mod RecoveryExamples
mod BackfillExamples
pub mod Budget
pub mod Dedup
pub mod Recovery
pub mod Backfill
