-- ===== src/Models.antt =====
-- The data of the service: the structs and enums of src/models, and the rows of its tables.
mod JsonValues
mod Businesses
mod Customers
mod Invoices
mod Payments
mod Webhooks
pub use JsonValues.*
pub use Businesses.*
pub use Customers.*
unfoldable pub use Invoices.*
pub use Payments.*
pub use Webhooks.*
