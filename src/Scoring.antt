-- ===== src/Scoring.antt =====
-- app/scoring
mod Examples
mod ReplayExamples
mod EventsExamples
pub mod Penalties
pub mod FinalScore
pub mod FrozenScores
pub mod Replay
pub mod Events
