-- ===== src/Insurance/Frames.antt =====
-- What each entry point of insurance/src/lib.rs leaves alone.
use invofi_contracts.Prelude.{ℕ, ◌≡◌, List, arith}
use invofi_contracts.Prelude.Int.{ℤ}
use invofi_contracts.Host.Outcome.{Address, Symbol, ok, Invocation}
use invofi_contracts.Common.Clients.{Token, RegistryClient}
use invofi_contracts.Common.Contract.Calls.{AdminCall, administer}
use invofi_contracts.Insurance.State.{Insurance, InsuranceTier, save_tier_pool}
use invofi_contracts.Insurance.Settings.{
  set_staking_token, set_payout_caller, set_registry, set_yield_rate, administer_pool,
}
use invofi_contracts.Insurance.Flat.{stake, unstake}
use invofi_contracts.Insurance.Payout.{
  pay_from_pool, pay_out, reserve_payout, pay_claim, claim_payout,
}
use invofi_contracts.Insurance.Tiers.Stakes.{stake_tier, unstake_tier}
use invofi_contracts.Insurance.Tiers.Payouts.{
  pay_from_tier, pay_out_tier, reserve_payout_tier, pay_tier_claim, claim_payout_tier,
}

abbrev pub SameFlat : Insurance → Insurance → Type 0
SameFlat s s' = (s'.stakes ≡ s.stakes) × (s'.pooltot ≡ s.pooltot)

abbrev pub SameReserved : Insurance → Insurance → Type 0
SameReserved s s' = (s'.resrvd ≡ s.resrvd) × (s'.paid ≡ s.paid) × (s'.tot_out ≡ s.tot_out)

abbrev pub SameTiers : Insurance → Insurance → Type 0
SameTiers s s' = (s'.tstakes ≡ s.tstakes) × (s'.pools ≡ s.pools)

abbrev pub SameAdmin : Insurance → Insurance → Type 0
SameAdmin s s' = s'.store.admcfg ≡ s.store.admcfg

module _ {W : Type 0} (token : Token W) (registry : RegistryClient W) (c : Invocation) where
  pub stake-frame :
      (who : Address) (amt : ℤ) (s : Insurance) (w : W) {s' : Insurance} {w' : W}
      → stake token c who amt s w ≡ ok (s', w')
      → SameReserved s s' × SameTiers s s' × SameAdmin s s'
  unfolding stake
  stake-frame who amt s w h = ground arith

  pub unstake-frame :
      (who : Address) (amt : ℤ) (s : Insurance) (w : W) {s' : Insurance} {w' : W}
      → unstake token c who amt s w ≡ ok (s', w')
      → SameReserved s s' × SameTiers s s' × SameAdmin s s'
  unfolding unstake
  unstake-frame who amt s w h = ground arith

  pub pay_out-frame :
      (invoice_id : Symbol) (who : Address) (amt : ℤ) (s : Insurance) (w : W) {p : ℤ}
      {s' : Insurance} {w' : W}
      → pay_out token registry c invoice_id who amt s w ≡ ok (p, s', w')
      → SameReserved s s' × SameTiers s s' × SameAdmin s s'
  unfolding pay_out pay_from_pool
  pay_out-frame invoice_id who amt s w h = ground arith

  pub reserve_payout-frame :
      (k : Symbol) (amt : ℤ) (s : Insurance) {r : ℤ} {s' : Insurance}
      → reserve_payout c k amt s ≡ ok (r, s')
      → SameTiers s s' × SameAdmin s s'
  unfolding reserve_payout
  reserve_payout-frame k amt s h = ground arith

  pub claim_payout-frame :
      (k : Symbol) (who : Address) (amt : ℤ) (s : Insurance) (w : W) {p left : ℤ} {s' : Insurance}
      {w' : W}
      → claim_payout token c k who amt s w ≡ ok ((p, left), s', w')
      → SameTiers s s' × SameAdmin s s'
  unfolding claim_payout pay_claim
  claim_payout-frame k who amt s w h = ground arith

  pub stake_tier-frame :
      (who : Address) (tier : InsuranceTier) (amt : ℤ) (s : Insurance) (w : W) {s' : Insurance}
      {w' : W}
      → stake_tier token c who tier amt s w ≡ ok (s', w')
      → SameFlat s s' × SameReserved s s' × SameAdmin s s'
  unfolding stake_tier save_tier_pool
  stake_tier-frame who tier amt s w h = ground arith

  pub unstake_tier-frame :
      (who : Address) (tier : InsuranceTier) (amt : ℤ) (s : Insurance) (w : W) {s' : Insurance}
      {w' : W}
      → unstake_tier token c who tier amt s w ≡ ok (s', w')
      → SameFlat s s' × SameReserved s s' × SameAdmin s s'
  unfolding unstake_tier save_tier_pool
  unstake_tier-frame who tier amt s w h = ground arith

  pub pay_out_tier-frame :
      (invoice_id : Symbol) (tier : InsuranceTier) (who : Address) (amt : ℤ) (s : Insurance) (w : W)
      {p : ℤ} {s' : Insurance} {w' : W}
      → pay_out_tier token registry c invoice_id tier who amt s w ≡ ok (p, s', w')
      → SameFlat s s' × SameReserved s s' × SameAdmin s s'
  unfolding pay_out_tier pay_from_tier save_tier_pool
  pay_out_tier-frame invoice_id tier who amt s w h = ground arith

  pub reserve_payout_tier-frame :
      (k : Symbol) (tier : InsuranceTier) (amt : ℤ) (s : Insurance) {r : ℤ} {s' : Insurance}
      → reserve_payout_tier c k tier amt s ≡ ok (r, s')
      → SameFlat s s' × SameReserved s s' × SameAdmin s s'
  unfolding reserve_payout_tier save_tier_pool
  reserve_payout_tier-frame k tier amt s h = ground arith

  pub claim_payout_tier-frame :
      (k : Symbol) (tier : InsuranceTier) (who : Address) (amt : ℤ) (s : Insurance) (w : W)
      {p left : ℤ} {s' : Insurance} {w' : W}
      → claim_payout_tier token c k tier who amt s w ≡ ok ((p, left), s', w')
      → SameFlat s s' × SameReserved s s' × SameAdmin s s'
  unfolding claim_payout_tier pay_tier_claim save_tier_pool
  claim_payout_tier-frame k tier who amt s w h = ground arith

-- The settings leave the money alone; `SameMoney` is all of it.
abbrev pub SameMoney : Insurance → Insurance → Type 0
SameMoney s s' = SameFlat s s' × SameReserved s s' × SameTiers s s'

module _ (c : Invocation) (signers : List Address) (s : Insurance) {s' : Insurance} where
  pub set_staking_token-frame :
      (addr : Address)
      → set_staking_token c signers addr s ≡ ok s'
      → SameMoney s s' × SameAdmin s s'
  unfolding set_staking_token
  set_staking_token-frame addr h = ground arith

  pub set_payout_caller-frame :
      (addr : Address)
      → set_payout_caller c signers addr s ≡ ok s'
      → SameMoney s s' × SameAdmin s s'
  unfolding set_payout_caller
  set_payout_caller-frame addr h = ground arith

  pub set_registry-frame :
      (addr : Address) → set_registry c signers addr s ≡ ok s' → SameMoney s s' × SameAdmin s s'
  unfolding set_registry
  set_registry-frame addr h = ground arith

  pub set_yield_rate-frame :
      (rate : ℕ) → set_yield_rate c signers rate s ≡ ok s' → SameMoney s s' × SameAdmin s s'
  unfolding set_yield_rate
  set_yield_rate-frame rate h = ground arith

  pub administer_pool-frame :
      (call : AdminCall)
      → administer_pool c signers call s ≡ ok s'
      → SameMoney s s' × (administer c signers call s.store ≡ ok s'.store)
  unfolding administer_pool
  administer_pool-frame call h = ground arith
