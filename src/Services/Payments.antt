-- ===== src/Services/Payments.antt =====
-- `pay_invoice` of src/services/payments.rs, and `call_psp` of src/workers/payment.rs.
pub mod Charge
pub mod Statements
pub mod Begin
pub mod Settle
pub mod Pay
pub mod Safe
pub mod Responses
pub mod Replay
pub mod Progress
pub mod Complete
