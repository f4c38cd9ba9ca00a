-- ===== src/Workers.antt =====
-- The background workers of src/workers.
pub mod Backoff
pub mod Status
pub mod Safe
pub mod Outcomes
pub mod Progress
pub mod Hooks
pub mod Dispatch
pub mod Webhooks
pub mod Attempts
