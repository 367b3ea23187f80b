-- ===== src/Protocol.antt =====
-- The contracts composed: a client interface filled by the model of the contract that it calls.
pub mod Links
pub mod Defaulting
pub mod Tests
pub mod Crediting
pub mod Collecting
pub mod Repaying
pub mod RepayingTests
