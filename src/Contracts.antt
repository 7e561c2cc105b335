-- ===== src/Contracts.antt =====
-- packages/contracts: the shapes that the two applications share.
pub mod Capture
pub mod Domain
pub mod Reserved
pub mod Slugs
pub mod Redaction
pub mod Samples
