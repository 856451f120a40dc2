-- ===== src/Validation.antt =====
-- app/validation: the state machines of runs and submissions.
pub mod RunState
pub mod SubmissionState
mod Examples
