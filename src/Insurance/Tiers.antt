-- ===== src/Insurance/Tiers.antt =====
-- The tier pools of insurance/src/lib.rs: `stake_tier`, `unstake_tier`, and the payouts.
pub mod Stakes
pub mod Payouts
