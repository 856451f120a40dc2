-- ===== src/Platform.antt =====
-- The services that the program calls: the SQL database and Redis, as interfaces with the laws that
-- the program relies on.
pub mod Sql
pub mod Redis
pub mod Hashes
pub mod Json
pub mod Uuids
pub mod Floats
