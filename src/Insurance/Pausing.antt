-- ===== src/Insurance/Pausing.antt =====
-- The entry points of insurance/src/lib.rs under the pause, and the withdrawal that stays open.
use invofi_contracts.Prelude.{◌≡◌, ◌⊎◌, refl, Bool, true, false, some, inl, inr, arith}
use invofi_contracts.Prelude.Int.{ℤ, pos, ◌≤ℤ◌, ◌<ℤ◌}
use invofi_contracts.Prelude.Maps.{ℕ_key, get_or}
use invofi_contracts.Host.Outcome.{Address, ok, err, contract, paused, Invocation, Result-cases}
use invofi_contracts.Host.Machine.{sub_i128}
use invofi_contracts.Common.Storage.{contract_is_paused, assert_not_paused}
use invofi_contracts.Common.Clients.{Token, RegistryClient}
use invofi_contracts.Common.Contract.Calls.{AdminCall, administer}
use invofi_contracts.Common.Contract.{set_signers, transfer_admin}
use invofi_contracts.Insurance.State.{Insurance, load_token}
use invofi_contracts.Insurance.Yield.{Accounts, bank_accrued_yield}
use invofi_contracts.Insurance.Settings.{
  set_staking_token, set_payout_caller, set_yield_rate, administer_pool,
}
use invofi_contracts.Insurance.Flat.{stake, unstake, pay_yield}
use invofi_contracts.Insurance.Payout.{assert_payout_caller, pay_out, reserve_payout, claim_payout}
use invofi_contracts.Insurance.Tiers.Stakes.{stake_tier, unstake_tier}
use invofi_contracts.Insurance.Tiers.Payouts.{pay_out_tier, reserve_payout_tier, claim_payout_tier}
use invofi_contracts.Insurance.Calls.{PoolCall, perform}

-- What a pause stops: all but `unstake`, `set_registry`, and the part of the administration that
-- lifts the pause or changes the code.
abbrev pub is_stopped : PoolCall → Bool
is_stopped (PoolCall.unstake _ _) = false
is_stopped (PoolCall.set_registry _ _) = false
is_stopped (PoolCall.administer _ (AdminCall.set_signers _ _)) = true
is_stopped (PoolCall.administer _ (AdminCall.transfer_admin _)) = true
is_stopped (PoolCall.administer _ _) = false
is_stopped _ = true

module _ {W : Type 0} (token : Token W) (registry : RegistryClient W) where
  -- While the contract is paused, every entry point but `unstake`, `set_registry`, `pause`, `unpause`,
  -- `upgrade`, `post_upgrade` and `rollback` is refused with `Paused`, whoever calls it.
  pub perform-paused :
      (c : Invocation) (call : PoolCall) (s : Insurance) (w : W)
      → contract_is_paused s.store ≡ true
      → is_stopped call ≡ true
      → perform token registry c call s w ≡ err (contract paused)
  unfolding perform stake stake_tier unstake_tier pay_out pay_out_tier reserve_payout claim_payout
      reserve_payout_tier claim_payout_tier set_staking_token set_payout_caller set_yield_rate
      administer_pool administer set_signers transfer_admin assert_not_paused assert_payout_caller
  perform-paused c (PoolCall.stake who amt) s w p h = rw p refl
  perform-paused c (PoolCall.unstake who amt) s w p h = cc
  perform-paused c (PoolCall.stake_tier who tier amt) s w p h = rw p refl
  perform-paused c (PoolCall.unstake_tier who tier amt) s w p h = rw p refl
  perform-paused c (PoolCall.pay_out invoice_id who amt) s w p h = rw p refl
  perform-paused c (PoolCall.pay_out_tier invoice_id tier who amt) s w p h = rw p refl
  perform-paused c (PoolCall.reserve_payout k amt) s w p h = rw p refl
  perform-paused c (PoolCall.claim_payout k who amt) s w p h = rw p refl
  perform-paused c (PoolCall.reserve_payout_tier k tier amt) s w p h = rw p refl
  perform-paused c (PoolCall.claim_payout_tier k tier who amt) s w p h = rw p refl
  perform-paused c (PoolCall.set_staking_token signers addr) s w p h = rw p refl
  perform-paused c (PoolCall.set_payout_caller signers addr) s w p h = rw p refl
  perform-paused c (PoolCall.set_registry signers addr) s w p h = cc
  perform-paused c (PoolCall.set_yield_rate signers rate) s w p h = rw p refl
  perform-paused c (PoolCall.administer signers (AdminCall.set_signers _ _)) s w p h = rw p refl
  perform-paused c (PoolCall.administer signers (AdminCall.transfer_admin _)) s w p h = rw p refl
  perform-paused c (PoolCall.administer signers AdminCall.pause) s w p h = cc
  perform-paused c (PoolCall.administer signers AdminCall.unpause) s w p h = cc
  perform-paused c (PoolCall.administer signers AdminCall.post_upgrade) s w p h = cc
  perform-paused c (PoolCall.administer signers AdminCall.rollback) s w p h = cc
  perform-paused c (PoolCall.administer signers (AdminCall.upgrade _ _ _)) s w p h = cc

module _ {W : Type 0} (token : Token W) where
  -- A staker can always leave, paused or not: an authorized `unstake` of a positive amount within the
  -- stake succeeds, provided that the yield and the two differences can be computed, the token is set,
  -- and the token contract carries out the two transfers that the call makes to the staker: that of
  -- the amount, and after it that of the yield, if there is any.
  pub unstake-open :
      (c : Invocation) (staker : Address) (amt : ℤ) (s : Insurance) (w : W) (token_addr : Address)
      (a : Accounts Address) (left total : ℤ) (w₁ : W)
      → c.auth staker ≡ true
      → pos 0 <ℤ amt
      → amt ≤ℤ get_or (pos 0) staker s.stakes
      → bank_accrued_yield s.yldrate staker s.stakes c.now
          (record { timestamps = s.stk_ts; accruals = s.yld_acc })
        ≡ ok a
      → sub_i128 (get_or (pos 0) staker s.stakes) amt ≡ ok left
      → sub_i128 s.pooltot amt ≡ ok total
      → s.store.token ≡ some token_addr
      → token.transfer token_addr c.self staker amt w ≡ ok w₁
      → (get_or (pos 0) staker a.accruals ≤ℤ pos 0)
        ⊎ ((w₂ : W) × (token.transfer token_addr c.self staker (get_or (pos 0) staker a.accruals) w₁
              ≡ ok w₂))
      → (s' : Insurance) × (w' : W) × (unstake token c staker amt s w ≡ ok (s', w'))
  unfolding unstake pay_yield load_token
  unstake-open c staker amt s w token_addr a left total w₁ auth positive within banked kept less set
        principal profit =
      let yield = get_or (pos 0) staker a.accruals in
      elim (Result-cases (unstake token c staker amt s w)) [
        | inl ((s', w'), done) ↦ (s', w', done)
        | inr (e, failed) ↦ elim profit [
          | inl none_due ↦ absurd (ground arith)
          | inr (w₂, sent) ↦ absurd (ground arith)
        ]
      ]
