-- ===== src/Insurance/Tiers/Stakes.antt =====
-- `stake_tier` and `unstake_tier` of insurance/src/lib.rs.
use invofi_contracts.Prelude.{ℕ, ◌-◌, [], ◌∷◌, if◌then◌else◌}
use invofi_contracts.Prelude.Int.{ℤ, pos, ltb_ℤ, leb_ℤ, is_zero}
use invofi_contracts.Prelude.Maps.{get_or, set, remove}
use invofi_contracts.Host.Outcome.{
  Address, Result, ok, ◌>>=◌, ◌>>◌, contract, invalid_input, insufficient_balance, guard,
  Invocation, require_auth,
}
use invofi_contracts.Host.Machine.{add_i128, sub_i128}
use invofi_contracts.Host.Events.{word, address, number, amount}
use invofi_contracts.Common.Storage.{Storage, publish, assert_not_paused}
use invofi_contracts.Common.Clients.{Token}
use invofi_contracts.Insurance.State.{
  Insurance, InsuranceTier, tier_code, PoolRecord, TierStakeKey, TierStakeKey_key, load_tier_pool,
  save_tier_pool, load_token, min_stake_amount,
}
use invofi_contracts.Insurance.Yield.{Accounts, bank_tier_yield, tier_yield}
use invofi_contracts.Insurance.Reduction.{put_balance}

abbrev pub tier_key : Address → InsuranceTier → TierStakeKey
tier_key staker tier = record { staker = staker; tier = tier }

abbrev accounts_of : Insurance → Accounts TierStakeKey
accounts_of s = record { timestamps = s.tstk_ts; accruals = s.tyld_acc }

unfoldable pub checkpoint_tier :
    TierStakeKey → PoolRecord → ℤ → ℕ → Insurance → Result (Accounts TierStakeKey)
checkpoint_tier key pool existing now s =
    if ltb_ℤ (pos 0) existing
    then bank_tier_yield key pool s.tstakes now (accounts_of s)
    else ok (record { timestamps = set key now s.tstk_ts; accruals = s.tyld_acc })

abbrev pub settle_tier : TierStakeKey → ℤ → Accounts TierStakeKey → Accounts TierStakeKey
settle_tier key new_balance a =
    if is_zero new_balance
    then record { timestamps = remove key a.timestamps; accruals = remove key a.accruals }
    else record a { accruals = set key (pos 0) a.accruals }

module _ {W : Type 0} (token : Token W) where
  unfoldable pub stake_tier :
      Invocation → Address → InsuranceTier → ℤ → Insurance → W → Result (Insurance × W)
  unfolding checkpoint_tier save_tier_pool
  stake_tier c staker tier amt s w = do
    assert_not_paused s.store
    require_auth c staker
    guard (ltb_ℤ (pos 0) amt) (contract invalid_input)
    let key = tier_key staker tier
    let existing = get_or (pos 0) key s.tstakes
    increased ← add_i128 existing amt
    guard (leb_ℤ min_stake_amount increased) (contract invalid_input)
    token_addr ← load_token s
    w' ← token.transfer_from token_addr c.self staker c.self amt w
    let pool = load_tier_pool tier s
    a ← checkpoint_tier key pool existing c.now s
    balance ← add_i128 pool.balance amt
    ok (
      save_tier_pool tier (record pool { balance = balance })
          (record s {
            tstakes = set key increased s.tstakes;
            tstk_ts = a.timestamps;
            tyld_acc = a.accruals;
            store =
                publish (word "pool_stk" ∷ address staker ∷ number (tier_code tier) ∷ [])
                  (amount amt ∷ []) s.store;
          }),
      w',
    )

  unfoldable pub pay_tier_yield :
      Address → Address → Address → InsuranceTier → ℤ → Storage → W → Result (Storage × W)
  pay_tier_yield token_addr self staker tier yield_payout store w =
      if ltb_ℤ (pos 0) yield_payout
      then (do
        w' ← token.transfer token_addr self staker yield_payout w
        ok (
          publish (word "pool_yld" ∷ address staker ∷ number (tier_code tier) ∷ [])
              (amount yield_payout ∷ []) store,
          w',
        ))
      else ok (store, w)

  unfoldable pub unstake_tier :
      Invocation → Address → InsuranceTier → ℤ → Insurance → W → Result (Insurance × W)
  unfolding pay_tier_yield save_tier_pool
  unstake_tier c staker tier amt s w = do
    assert_not_paused s.store
    require_auth c staker
    guard (ltb_ℤ (pos 0) amt) (contract invalid_input)
    let key = tier_key staker tier
    let balance = get_or (pos 0) key s.tstakes
    guard (leb_ℤ amt balance) (contract insufficient_balance)
    let pool = load_tier_pool tier s
    a ← bank_tier_yield key pool s.tstakes c.now (accounts_of s)
    let yield_payout = get_or (pos 0) key a.accruals
    remaining ← sub_i128 balance amt
    let settled = settle_tier key remaining a
    pool_balance ← sub_i128 pool.balance amt
    token_addr ← load_token s
    w1 ← token.transfer token_addr c.self staker amt w
    (store, w2) ← pay_tier_yield token_addr c.self staker tier yield_payout s.store w1
    ok (
      save_tier_pool tier (record pool { balance = pool_balance })
          (record s {
            tstakes = put_balance key remaining s.tstakes;
            tstk_ts = settled.timestamps;
            tyld_acc = settled.accruals;
            store =
                publish (word "pool_un" ∷ address staker ∷ number (tier_code tier) ∷ [])
                  (amount amt ∷ []) store;
          }),
      w2,
    )

-- The preview of what a tier staker would be paid now.
unfoldable pub accrued_tier_yield : ℕ → Address → InsuranceTier → Insurance → Result ℤ
accrued_tier_yield now staker tier s = do
  let key = tier_key staker tier
  let start = get_or now key s.tstk_ts
  earned ← tier_yield (get_or (pos 0) key s.tstakes) (load_tier_pool tier s).apy_bps (now - start)
  add_i128 (get_or (pos 0) key s.tyld_acc) earned
