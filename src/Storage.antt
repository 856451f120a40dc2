-- ===== src/Storage.antt =====
-- app/storage
mod Examples
pub mod Presign
