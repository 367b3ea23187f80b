-- ===== src/Host.antt =====
-- The part of the Soroban host that the contracts use: results and traps, the invocation, checked
-- machine arithmetic, and the event log.
pub mod Outcome
pub mod Machine
pub mod MachineLaws
pub mod Events
pub mod Transactions
