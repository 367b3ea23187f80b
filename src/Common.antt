-- ===== src/Common.antt =====
-- common/src/lib.rs: what the contracts share.
pub mod Types
pub mod Domain
pub mod Storage
pub mod Governance
pub mod Threshold
pub mod Signers
pub mod Version
pub mod Upgrade
pub mod UpgradeLaws
pub mod Transition
pub mod Statuses
pub mod Lifecycle
pub mod Contract
pub mod Clients
pub mod Tests
