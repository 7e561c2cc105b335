-- ===== src/Consumer.antt =====
-- apps/worker/src/consumer: jobs are taken off the queue.
pub mod Events
pub mod DeadLetters
pub mod Shutdown
