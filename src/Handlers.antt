-- ===== src/Handlers.antt =====
-- src/handlers: what each route checks before it calls its service, and what it answers.
pub mod Businesses
pub mod Customers
pub mod Invoices
pub mod Payments
pub mod Webhooks
