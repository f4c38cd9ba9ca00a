-- ===== src/Services/Invoices.antt =====
-- src/services/invoices.rs.
pub mod Totals
pub mod Consistent
pub mod Updates
pub mod Statements
pub mod Create
pub mod Edit
pub mod Read
pub mod Transitions
pub mod Keeps
pub mod Lifecycle
pub mod Stable
pub mod Advance
pub mod Atomic
pub mod States
pub mod Outcomes
pub mod Progress
pub mod Listing
