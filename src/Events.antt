-- ===== src/Events.antt =====
-- app/events: events that are stored with the data and published later.
mod Examples
pub mod Outbox
