-- ===== src/Sandbox.antt =====
-- app/sandbox
mod Examples
pub mod Concurrency
