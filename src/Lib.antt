-- ===== src/Lib.antt =====
-- Payman: the core of a billing service (invoices and their payments).
--
-- The program is an HTTP service over Postgres. Its handlers pass a request to a service
-- (src/services), the services run SQL statements, and background workers (src/workers) send
-- webhooks and settle payments. The modules follow it:
--
--   Models        src/models: invoices, payments, customers, businesses, webhooks, and the rows of
--                 the tables in migrations/
--   Errors        src/errors.rs: `AppError`, `Result` for `AppResult`, `into_response`
--   Http          the replies that the HTTP client hands to the code
--   Libraries     serde_json on `PaymentAttempt` and the text of a `Uuid`: parameters of the model
--   Store         a session with Postgres: `World` (tables, clock, source of identifiers, statements
--                 that fail, spawned tasks), `Action`, `exec`, `transaction`, and rules for actions
--   Services      src/services: Invoices (invoices.rs), Payments (payments.rs and `call_psp` of
--                 src/workers/payment.rs), Customers (customers.rs), Businesses (businesses.rs,
--                 src/utils/api_key.rs and src/middleware/auth.rs), Webhooks (webhook.rs), Versions
--                 and Wins (optimistic locking), Lives (the life of an invoice), Elsewhere and Unique
--                 (the tables with unique indexes), Deleted (endpoints that were deleted)
--   Workers       src/workers/payment_status_worker.rs: Status (`tick`, `reconcile_attempt`), Backoff;
--                 src/workers/webhook.rs and webhook_worker.rs: Webhooks (`dispatch`, `deliver`,
--                 `process_pending_deliveries`)
--   Middleware    src/middleware/rate_limiter.rs: RateLimiter, the Lua script on one key; Limits, the
--                 two middlewares on the state of the server
--   Handlers      src/handlers: one module per file, a handler per function
--   Router        src/main.rs: the routes and the layers around them, up to the response
--   Provider      src/bin/psp.rs: the mock provider
--   System        requests of all businesses, and the actions of the worker, as the steps of one
--                 transition system; System/Lifecycle: the abstract life of an invoice that they
--                 refine, step by step and by who takes it (Services/Invoices/Lifecycle); System/Server: the whole server, with requests over
--                 HTTP, the workers and the spawned tasks
--   Tests         runs at concrete inputs
--
-- A service function is the function of the same name here: `create_invoice`, `get_invoice`,
-- `edit_invoice`, `list_invoices`, `finalize_invoice` and `void_invoice` of Services/Invoices,
-- `pay_invoice` of Services/Payments, `create_customer`, `get_customer` and `list_customers` of
-- Services/Customers, `create_business` of Services/Businesses. Their inner blocks have names of
-- their own, which the comments give. A handler has the name of its service, and takes the
-- business that `auth_middleware` found. `app` of Router answers a request: the limiter of the
-- address comes first, then `auth_middleware` (`authenticate` up to the rest), the limiter of the
-- business, and the handler of the route; what the framework extracts from the request for that
-- handler is part of the request. `AppState` is the world and Redis, whose scripts may fail
-- before or after they ran. An action takes the
-- world and returns a result or an error, and the world after it. Each statement counts, and the
-- world says which of them fail, so that a theorem on all worlds covers a database that fails at
-- any point. A transaction that ends in an error puts the tables back. A COMMIT that fails is taken to have had
-- no effect: one that Postgres has carried out, but whose answer is lost, is not modelled.
--
-- A request runs to its end in one step of System, but for an edit and a payment. The lock of an edit
-- and the part of its transaction after its first SELECT (`edit_rows`) are steps of their own too, so
-- that other transactions may commit before either. Postgres runs the transaction at READ COMMITTED:
-- its DELETE, which may wait for another transaction, sees the rows that were committed when it
-- started, which `seen` says. Where no other edit overlaps it, these are all rows (`SeesAll`). In a
-- payment, the call to the provider stands between its two transactions, and there other requests may
-- run. `Psp` gives the reply of the
-- provider and the world when it arrives. Other services
-- have one statement that another request could get in the way of, and it tests the state or the version
-- that it relies on, so that their transactions are one step.
--
-- Identifiers are numbers, which the world draws from a given sequence: nothing but equality is
-- asked of them, and that they are fresh is never assumed (an insert tests it). Times are
-- microseconds (milliseconds in RateLimiter) and dates are days since 1970. The 64-bit total of an
-- invoice wraps as it does in a release build. The 32-bit version of an invoice, and the 32-bit
-- counts of attempts, fail the statement that would leave their range. Recursion is on lists, so
-- nothing runs on fuel.
--
-- The rows of webhook_deliveries that a worker takes with LIMIT 10 come in table order, since the
-- query names none.
--
-- Provider has the outcomes that the mock provider keeps. While a charge sleeps, the tasks that
-- are waiting run, and then whatever other requests there are. The service has given up on a reply
-- that takes more than five seconds.
--
-- Not modelled: how the framework matches a path to a route and reads a body, start-up and
-- shutdown, and the loops that only sleep between two runs of a worker.
pub mod Prelude
pub mod Models
pub mod Errors
pub mod Http
pub mod Libraries
pub mod Store
pub mod Services
pub mod Workers
pub mod Handlers
pub mod Router
pub mod Provider
pub mod Middleware
pub mod System
pub mod Tests
