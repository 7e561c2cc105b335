-- ===== src/Core.antt =====
-- packages/core/src: what the redirect, the worker and the replay tool share.
pub mod Enrichment
pub mod EventLog
pub mod MigrateDown
pub mod Migrations
pub mod Tenants
