-- ===== src/Core/EventLog.antt =====
-- packages/core/src/r2: the event log in object storage.
pub mod Keys
pub mod Json
pub mod Ndjson
