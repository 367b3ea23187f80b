-- ===== src/Insurance.antt =====
-- insurance/src/lib.rs: the coverage reserve. A flat pool and three tier pools, each with stakes,
-- yield, payouts on default, and reservations.
pub mod State
pub mod Yield
pub mod Settings
pub mod Reduction
pub mod ReductionLaws
pub mod Flat
pub mod Payout
pub mod Tiers
pub mod FlatBalance
pub mod Transfers
pub mod FlatPayout
pub mod Reservations
pub mod Promises
pub mod Settlement
pub mod Claims
pub mod TierBalance
pub mod TierPayout
pub mod TierClaims
pub mod TierReservations
pub mod YieldLaws
pub mod Checkpoint
pub mod Prospective
pub mod Tests
pub mod TierTests
pub mod YieldTests
pub mod Calls
pub mod Frames
pub mod Solid
pub mod History
pub mod HistoryTests
pub mod Pausing
pub mod PausingTests
pub mod Views
