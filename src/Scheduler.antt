-- ===== src/Scheduler.antt =====
-- app/scheduler: who schedules, what is due, and when a run has to end.
mod Examples
pub mod Keys
pub mod LeaderElection
pub mod FairOrder
pub mod Interval
pub mod Checkpoints
pub mod RunTimeout
pub mod Heartbeat
