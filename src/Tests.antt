-- ===== src/Tests.antt =====
-- Runs of the program on concrete tables, and instances of the theorems.
mod Data
mod Codec
mod Invoices
mod Payments
mod Requests
mod Overlap
mod Workers
mod Customers
mod Businesses
mod RateLimiter
mod Webhooks
mod Router
mod Provider
