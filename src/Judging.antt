-- ===== src/Judging.antt =====
-- app/judging, and the panel of judges that app/orchestrator/judge_bootstrap.py seeds
mod Examples
pub mod Versioning
pub mod Bootstrap
pub mod RunStart
