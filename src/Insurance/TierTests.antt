-- ===== src/Insurance/TierTests.antt =====
-- Concrete tier pools, and the theorems on them.
use invofi_contracts.Prelude.{false, ◌≡◌, refl, [], ◌∷◌}
use invofi_contracts.Prelude.Int.{ℤ, pos, ◌+ℤ◌, ◌-ℤ◌, ◌*ℤ◌, quot, min_ℤ, max_ℤ}
use invofi_contracts.Prelude.Maps.{ℕ_key, set, remove}
use invofi_contracts.Host.Outcome.{ok}
use invofi_contracts.Host.Machine.{add_i128, sub_i128, mul_i128, div_i128}
use invofi_contracts.Host.Events.{word, address, amount, symbol, number}
use invofi_contracts.Common.Storage.{assert_not_paused, publish}
use invofi_contracts.Insurance.State.{
  Insurance, InsuranceTier, InsuranceTier_key, PoolRecord, TierStakeKey_key, TierOfferKey_key,
  load_tier_pool, save_tier_pool, load_token,
}
use invofi_contracts.Insurance.Yield.{
  compute_yield, tier_yield, bank_accrued_yield, bank_tier_yield, credit_tier,
}
use invofi_contracts.Insurance.Flat.{stake, unstake, checkpoint, pay_yield}
use invofi_contracts.Insurance.Payout.{assert_payout_caller, assert_defaulted}
use invofi_contracts.Insurance.Reduction.{reduction_for, reduce_from, reduce_stakes}
use invofi_contracts.Insurance.Tiers.Stakes.{
  tier_key, stake_tier, unstake_tier, checkpoint_tier, pay_tier_yield,
}
use invofi_contracts.Insurance.Tiers.Payouts.{
  offer_key, capped, reduce_tier, pay_from_tier, pay_out_tier, pay_tier_claim, claim_payout_tier,
}
use invofi_contracts.Insurance.TierBalance.{TiersBalanced}
use invofi_contracts.Insurance.Transfers.{IsPaid}
use invofi_contracts.Insurance.State.{same_tier}
use invofi_contracts.Insurance.TierClaims.{
  share_of_claim, tier_remaining, pay_out_tier_lem, claim_payout_tier_lem,
}
use invofi_contracts.Insurance.Tests.{counting_token, default_registry, call, storage, pool}

abbrev tier_pool : ℤ → ℤ → PoolRecord
tier_pool balance reserved = record {
  balance = balance;
  reserved = reserved;
  apy_bps = 500;
  payout_cap_bps = 7500;
}

-- Stakers 1 and 2 in the balanced tier.
abbrev tiered : Insurance
tiered = record pool {
  tstakes =
      (tier_key 1 InsuranceTier.balanced, pos 3000000)
      ∷ (tier_key 2 InsuranceTier.balanced, pos 1000000)
      ∷ [];
  pools = (InsuranceTier.balanced, tier_pool (pos 4000000) (pos 0)) ∷ [];
}

pub tiered-TiersBalanced : TiersBalanced tiered
unfolding ◌+ℤ◌ load_tier_pool
tiered-TiersBalanced InsuranceTier.conservative = refl
tiered-TiersBalanced InsuranceTier.balanced = refl
tiered-TiersBalanced InsuranceTier.aggressive = refl

abbrev tier_paid : Insurance
tier_paid = record tiered {
  tstakes =
      (tier_key 1 InsuranceTier.balanced, pos 1875000)
      ∷ (tier_key 2 InsuranceTier.balanced, pos 625000)
      ∷ [];
  pools = (InsuranceTier.balanced, tier_pool (pos 2500000) (pos 0)) ∷ [];
  store = publish (word "pool_pay" ∷ address 4 ∷ number 1 ∷ []) (amount (pos 1500000) ∷ []) storage;
}

pay_out_tier-tiered :
    pay_out_tier counting_token default_registry call 70 InsuranceTier.balanced 4
      (pos 2000000)
      tiered
      0
    ≡ ok (pos 1500000, tier_paid, 1)
unfolding pay_out_tier pay_from_tier assert_payout_caller assert_defaulted assert_not_paused capped
    reduce_tier reduce_stakes reduce_from reduction_for load_tier_pool save_tier_pool load_token
    add_i128 sub_i128 mul_i128 div_i128 ◌+ℤ◌ ◌-ℤ◌ ◌*ℤ◌ quot min_ℤ set remove
pay_out_tier-tiered = refl

pay_out_tier_lem_example :
    (pos 1500000
      ≡ max_ℤ
          (min_ℤ
            (share_of_claim (pos 2000000) InsuranceTier.balanced tiered)
            (load_tier_pool InsuranceTier.balanced tiered).balance)
          (pos 0))
    × TiersBalanced tier_paid
    × IsPaid counting_token call 4 tiered 0 (pos 1500000) 1
    × ((load_tier_pool InsuranceTier.balanced tier_paid).balance
        ≡ (load_tier_pool InsuranceTier.balanced tiered).balance -ℤ pos 1500000)
    × ((load_tier_pool InsuranceTier.balanced tier_paid).reserved
        ≡ (load_tier_pool InsuranceTier.balanced tiered).reserved)
    × ((u : InsuranceTier)
        → same_tier InsuranceTier.balanced u ≡ false
        → load_tier_pool u tier_paid ≡ load_tier_pool u tiered)
pay_out_tier_lem_example =
    pay_out_tier_lem counting_token call default_registry 70 InsuranceTier.balanced 4 (pos 2000000)
      tiered 0 tiered-TiersBalanced pay_out_tier-tiered

abbrev tier_promised : Insurance
tier_promised = record tiered {
  tresrv = (offer_key 30 InsuranceTier.balanced, pos 1500000) ∷ [];
  pools = (InsuranceTier.balanced, tier_pool (pos 4000000) (pos 1500000)) ∷ [];
  store = publish (word "ins_rsrv" ∷ symbol 30 ∷ number 1 ∷ []) (amount (pos 1500000) ∷ []) storage;
}

tier_promised-TiersBalanced : TiersBalanced tier_promised
unfolding ◌+ℤ◌ load_tier_pool
tier_promised-TiersBalanced InsuranceTier.conservative = refl
tier_promised-TiersBalanced InsuranceTier.balanced = refl
tier_promised-TiersBalanced InsuranceTier.aggressive = refl

abbrev tier_claimed : Insurance
tier_claimed = record tier_promised {
  tstakes =
      (tier_key 1 InsuranceTier.balanced, pos 2700000)
      ∷ (tier_key 2 InsuranceTier.balanced, pos 900000)
      ∷ [];
  tpaid = (offer_key 30 InsuranceTier.balanced, pos 400000) ∷ [];
  pools = (InsuranceTier.balanced, tier_pool (pos 3600000) (pos 1100000)) ∷ [];
  store =
      publish (word "ins_pay" ∷ symbol 30 ∷ number 1 ∷ [])
        (amount (pos 400000) ∷ amount (pos 1100000) ∷ []) tier_promised.store;
}

claim_payout_tier-promised :
    claim_payout_tier counting_token call 30 InsuranceTier.balanced 4 (pos 400000) tier_promised 0
    ≡ ok ((pos 400000, pos 1100000), tier_claimed, 1)
unfolding claim_payout_tier pay_tier_claim assert_payout_caller assert_not_paused reduce_tier
    reduce_stakes reduce_from reduction_for load_tier_pool save_tier_pool load_token add_i128
    sub_i128 mul_i128 div_i128 ◌+ℤ◌ ◌-ℤ◌ ◌*ℤ◌ quot min_ℤ set remove
claim_payout_tier-promised = refl

claim_payout_tier_lem_example :
    (pos 400000
      ≡ max_ℤ
          (min_ℤ
            (min_ℤ (pos 400000) (tier_remaining 30 InsuranceTier.balanced tier_promised))
            (load_tier_pool InsuranceTier.balanced tier_promised).balance)
          (pos 0))
    × (pos 1100000 ≡ tier_remaining 30 InsuranceTier.balanced tier_promised -ℤ pos 400000)
    × TiersBalanced tier_claimed
    × IsPaid counting_token call 4 tier_promised 0 (pos 400000) 1
    × (tier_remaining 30 InsuranceTier.balanced tier_claimed ≡ pos 1100000)
    × ((load_tier_pool InsuranceTier.balanced tier_claimed).balance
        ≡ (load_tier_pool InsuranceTier.balanced tier_promised).balance -ℤ pos 400000)
    × ((load_tier_pool InsuranceTier.balanced tier_claimed).reserved
        ≡ (load_tier_pool InsuranceTier.balanced tier_promised).reserved -ℤ pos 400000)
    × ((u : InsuranceTier)
        → same_tier InsuranceTier.balanced u ≡ false
        → load_tier_pool u tier_claimed ≡ load_tier_pool u tier_promised)
claim_payout_tier_lem_example =
    claim_payout_tier_lem counting_token call 30 InsuranceTier.balanced 4 (pos 400000) tier_promised
      0 tier_promised-TiersBalanced claim_payout_tier-promised

abbrev staked : Insurance
staked = record pool {
  stakes = (1, pos 3000000) ∷ (2, pos 2000000) ∷ (3, pos 1000000) ∷ [];
  stk_ts = (3, 5000) ∷ [];
  pooltot = pos 6000000;
  store = publish (word "pool_stk" ∷ address 3 ∷ []) (amount (pos 1000000) ∷ []) storage;
}

stake-pool : stake counting_token call 3 (pos 1000000) pool 0 ≡ ok (staked, 1)
unfolding stake checkpoint assert_not_paused load_token add_i128 ◌+ℤ◌ set
stake-pool = refl

abbrev unstaked : Insurance
unstaked = record pool {
  stakes = (1, pos 2500000) ∷ (2, pos 2000000) ∷ [];
  stk_ts = (1, 5000) ∷ [];
  yld_acc = (1, pos 0) ∷ [];
  pooltot = pos 4500000;
  store = publish (word "pool_un" ∷ address 1 ∷ []) (amount (pos 500000) ∷ []) storage;
}

unstake-pool : unstake counting_token call 1 (pos 500000) pool 0 ≡ ok (unstaked, 1)
unfolding unstake pay_yield bank_accrued_yield compute_yield load_token add_i128 sub_i128 ◌+ℤ◌ ◌-ℤ◌
    set remove
unstake-pool = refl

abbrev tier_staked : Insurance
tier_staked = record tiered {
  tstakes =
      (tier_key 1 InsuranceTier.balanced, pos 3000000)
      ∷ (tier_key 2 InsuranceTier.balanced, pos 1000000)
      ∷ (tier_key 3 InsuranceTier.balanced, pos 1000000)
      ∷ [];
  tstk_ts = (tier_key 3 InsuranceTier.balanced, 5000) ∷ [];
  pools = (InsuranceTier.balanced, tier_pool (pos 5000000) (pos 0)) ∷ [];
  store = publish (word "pool_stk" ∷ address 3 ∷ number 1 ∷ []) (amount (pos 1000000) ∷ []) storage;
}

stake_tier-tiered :
    stake_tier counting_token call 3 InsuranceTier.balanced (pos 1000000) tiered 0
    ≡ ok (tier_staked, 1)
unfolding stake_tier checkpoint_tier assert_not_paused load_tier_pool save_tier_pool load_token
    add_i128 ◌+ℤ◌ set
stake_tier-tiered = refl

abbrev tier_unstaked : Insurance
tier_unstaked = record tiered {
  tstakes = (tier_key 1 InsuranceTier.balanced, pos 3000000) ∷ [];
  pools = (InsuranceTier.balanced, tier_pool (pos 3000000) (pos 0)) ∷ [];
  store = publish (word "pool_un" ∷ address 2 ∷ number 1 ∷ []) (amount (pos 1000000) ∷ []) storage;
}

unstake_tier-tiered :
    unstake_tier counting_token call 2 InsuranceTier.balanced (pos 1000000) tiered 0
    ≡ ok (tier_unstaked, 1)
unfolding unstake_tier pay_tier_yield bank_tier_yield credit_tier tier_yield assert_not_paused
    load_tier_pool save_tier_pool load_token add_i128 sub_i128 ◌+ℤ◌ ◌-ℤ◌ set remove
unstake_tier-tiered = refl
