-- ===== src/Auth.antt =====
-- app/auth: what a user may still do.
mod Examples
pub mod Quotas
