-- ===== src/Services.antt =====
-- The services of src/services: what a request does to the database.
pub mod Invoices
pub mod Payments
pub mod Versions
pub mod Wins
pub mod Elsewhere
pub mod Unique
pub mod Lives
pub mod Customers
pub mod Businesses
pub mod Webhooks
pub mod Deleted
