-- ===== src/Leaderboard.antt =====
-- app/leaderboard: ranking the accepted submissions of a run.
mod Examples
mod ApiExamples
pub mod Segments
pub mod Api
pub mod Cache
pub mod Materializer
