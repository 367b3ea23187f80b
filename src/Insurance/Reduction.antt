-- ===== src/Insurance/Reduction.antt =====
-- The loop by which a payout of insurance/src/lib.rs reduces the stakes: `pay_out`, `claim_payout`,
-- `pay_out_tier` and `claim_payout_tier` have a copy each. The tier copies write the test
-- `new_balance == 0` as `reduction == balance`.
use invofi_contracts.Prelude.{ℕ, suc, Bool, List, [], ◌∷◌, ◌==◌, if◌then◌else◌}
use invofi_contracts.Prelude.Lists.{length}
use invofi_contracts.Prelude.Int.{ℤ, pos, min_ℤ, is_zero}
use invofi_contracts.Prelude.Maps.{Key, Map, get_or, set, remove}
use invofi_contracts.Host.Outcome.{Result, ok, ◌>>=◌}
use invofi_contracts.Host.Machine.{add_i128, sub_i128, mul_i128, div_i128}

-- The share of one staker: the last one absorbs what is left, any other pays pro rata, rounded down,
-- and at most what is left.
unfoldable pub reduction_for : ℤ → ℤ → Bool → ℤ → ℤ → Result ℤ
reduction_for payout pool_total is_last balance reductions =
    if is_last then sub_i128 payout reductions else (do
      product ← mul_i128 balance payout
      share ← div_i128 product pool_total
      left ← sub_i128 payout reductions
      ok (min_ℤ share left))

module _ {K : Type 0} ⦃e : Key K⦄ where
  abbrev pub put_balance : K → ℤ → Map K ℤ → Map K ℤ
  put_balance key balance stakes =
      if is_zero balance then remove key stakes else set key balance stakes

  -- From index `i` of `count` keys on; the result is the stakes and the sum of the reductions.
  unfoldable pub reduce_from : ℤ → ℤ → ℕ → ℕ → List K → Map K ℤ → ℤ → Result (Map K ℤ × ℤ)
  reduce_from payout pool_total count i [] stakes reductions = ok (stakes, reductions)
  reduce_from payout pool_total count i (key ∷ rest) stakes reductions = do
    let balance = get_or (pos 0) key stakes
    reduction ← reduction_for payout pool_total (suc i == count) balance reductions
    new_balance ← sub_i128 balance reduction
    reductions' ← add_i128 reductions reduction
    reduce_from payout pool_total count (suc i) rest (put_balance key new_balance stakes)
        reductions'

  -- Over a snapshot of the keys; with no key there is nothing to do.
  unfoldable pub reduce_stakes : ℤ → ℤ → List K → Map K ℤ → Result (Map K ℤ × ℤ)
  unfolding reduce_from reduction_for
  reduce_stakes payout pool_total keys stakes =
      reduce_from payout pool_total (length keys) 0 keys stakes (pos 0)
