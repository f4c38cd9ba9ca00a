-- ===== src/Store.antt =====
-- The database and the world that a request runs in, and the rules for actions on it.
mod Session
mod Rules
mod Success
mod Ensuring
mod Transactions
unfoldable pub use Session.*
pub use Rules.*
pub use Success.*
pub use Ensuring.*
pub use Transactions.*
