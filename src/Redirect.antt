-- ===== src/Redirect.antt =====
-- apps/api/src/redirect: a click is answered first and captured after.
pub mod Capture
pub mod Location
pub mod Host
pub mod Handler
pub mod Links
pub mod Enqueue
pub mod Escape
pub mod Tenants
