-- ===== src/Batch.antt =====
-- apps/worker/src/batch: from single events to committed batches.
pub mod ClassifyError
pub mod SplitRetry
pub mod R2Retry
pub mod Accumulator
pub mod Rows
pub mod Flush
mod Samples
