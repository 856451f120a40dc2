-- ===== src/Db.antt =====
-- The persistent data: app/db/enums.py and app/db/models.py.
mod Examples
pub mod Enums
pub mod Models
pub mod Tables
pub mod Idempotency
pub mod ConfigTimeline
