-- ===== src/Insurance/Yield.antt =====
-- The yield of insurance/src/lib.rs: linear in principal, rate and time, banked at each checkpoint.
use invofi_contracts.Prelude.{ℕ, ◌-◌, ◌*◌, ◌||◌, ◌==◌, if◌then◌else◌}
use invofi_contracts.Prelude.Int.{ℤ, pos, ltb_ℤ, is_zero}
use invofi_contracts.Prelude.Maps.{Map, ℕ_key, get_or, set}
use invofi_contracts.Host.Outcome.{Address, Result, ok, ◌>>=◌}
use invofi_contracts.Host.Machine.{add_i128, mul_i128, div_i128}
use invofi_contracts.Insurance.State.{
  PoolRecord, TierStakeKey, TierStakeKey_key, Insurance, seconds_per_year, bps_denominator,
}

-- `principal * elapsed * rate / (SECONDS_PER_YEAR * 10_000)`
unfoldable pub compute_yield : ℤ → ℕ → ℕ → Result ℤ
compute_yield principal rate_bps elapsed_secs =
    if is_zero principal || rate_bps == 0 || elapsed_secs == 0 then ok (pos 0) else (do
      by_time ← mul_i128 principal (pos elapsed_secs)
      by_rate ← mul_i128 by_time (pos rate_bps)
      div_i128 by_rate (pos (seconds_per_year * 10000)))

unfoldable pub tier_yield : ℤ → ℕ → ℕ → Result ℤ
tier_yield principal apy_bps elapsed_secs =
    if is_zero principal || elapsed_secs == 0 then ok (pos 0) else (do
      by_rate ← mul_i128 principal (pos apy_bps)
      by_time ← mul_i128 by_rate (pos elapsed_secs)
      denominator ← mul_i128 bps_denominator (pos seconds_per_year)
      div_i128 by_time denominator)

-- The timestamps and the accruals that a checkpoint updates.
pub record Accounts (K : Type 0) : Type 0 where
  pub timestamps : Map K ℕ
  pub accruals : Map K ℤ

-- `if earned > 0 { accruals.set(key, prev + earned) }`
unfoldable pub credit : Address → ℤ → Map Address ℤ → Result (Map Address ℤ)
credit staker earned accruals =
    if ltb_ℤ (pos 0) earned
    then (do
      total ← add_i128 (get_or (pos 0) staker accruals) earned
      ok (set staker total accruals))
    else ok accruals

-- `now.saturating_sub(start)` is the truncated difference. The amount that the source returns is
-- used by none of its callers.
unfoldable pub bank_accrued_yield :
    ℕ → Address → Map Address ℤ → ℕ → Accounts Address → Result (Accounts Address)
unfolding credit
bank_accrued_yield rate staker stakes now a =
    let principal = get_or (pos 0) staker stakes in
    let start = get_or now staker a.timestamps in
    if is_zero principal then ok a else (do
      earned ← compute_yield principal rate (now - start)
      accruals ← credit staker earned a.accruals
      ok (record { timestamps = set staker now a.timestamps; accruals = accruals }))

unfoldable pub credit_tier : TierStakeKey → ℤ → Map TierStakeKey ℤ → Result (Map TierStakeKey ℤ)
credit_tier key earned accruals =
    if ltb_ℤ (pos 0) earned
    then (do total ← add_i128 (get_or (pos 0) key accruals) earned; ok (set key total accruals))
    else ok accruals

unfoldable pub bank_tier_yield :
    TierStakeKey
    → PoolRecord
    → Map TierStakeKey ℤ
    → ℕ
    → Accounts TierStakeKey
    → Result (Accounts TierStakeKey)
unfolding credit_tier
bank_tier_yield key pool stakes now a = do
  let principal = get_or (pos 0) key stakes
  let start = get_or now key a.timestamps
  earned ← tier_yield principal pool.apy_bps (now - start)
  accruals ← credit_tier key earned a.accruals
  ok (record { timestamps = set key now a.timestamps; accruals = accruals })

-- `accrued_yield`: the preview of what a staker would be paid now.
unfoldable pub accrued_yield : ℕ → Address → Insurance → Result ℤ
accrued_yield now staker s =
    let principal = get_or (pos 0) staker s.stakes in
    let banked = get_or (pos 0) staker s.yld_acc in
    let start = get_or now staker s.stk_ts in
    if is_zero principal
    then ok banked
    else (do earned ← compute_yield principal s.yldrate (now - start); add_i128 banked earned)
