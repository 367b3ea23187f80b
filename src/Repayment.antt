-- ===== src/Repayment.antt =====
-- repayment/src/lib.rs: repayments with their split into interest and principal, overdue penalties,
-- and the declaration of defaults.
pub mod State
pub mod Interest
pub mod Owed
pub mod Repay
pub mod Reclaim
pub mod Settings
pub mod Views
pub mod Formulas
pub mod Settled
pub mod Loans
pub mod Payments
pub mod Guards
pub mod Cleared
pub mod Payoff
pub mod Accrual
pub mod Defaults
pub mod Calls
pub mod Kept
pub mod History
pub mod Tests
pub mod HistoryTests
