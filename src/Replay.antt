-- ===== src/Replay.antt =====
-- apps/worker/src/cli: the stored batches are written to the database again.
pub mod Driver
pub mod Arguments
pub mod Reconciliation
pub mod Report
pub mod Command
pub mod Main
