-- ===== src/Transaction.antt =====
-- The payment objects of meshpay/types/transaction.py.
pub mod Payload
pub mod Transfer
pub mod Vote
pub mod Status
pub mod Signed
pub mod Confirmation
