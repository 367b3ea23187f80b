-- ===== src/Insurance/Calls.antt =====
-- The entry points of insurance/src/lib.rs that change state as one dispatcher, and a sequence of
-- transactions: one that traps is undone.
use invofi_contracts.Prelude.{ℕ, List, [], ◌∷◌}
use invofi_contracts.Prelude.Int.{ℤ}
use invofi_contracts.Host.Outcome.{Address, Symbol, Result, ok, err, ◌>>=◌, Invocation}
use invofi_contracts.Common.Clients.{Token, RegistryClient}
use invofi_contracts.Common.Contract.Calls.{AdminCall}
use invofi_contracts.Insurance.State.{Insurance, InsuranceTier}
use invofi_contracts.Insurance.Settings as Settings
use invofi_contracts.Insurance.Flat as Flat
use invofi_contracts.Insurance.Payout as Payout
use invofi_contracts.Insurance.Tiers.Stakes as Stakes
use invofi_contracts.Insurance.Tiers.Payouts as Payouts

pub data PoolCall : Type 0 where
  stake unstake : Address → ℤ → PoolCall
  stake_tier unstake_tier : Address → InsuranceTier → ℤ → PoolCall
  pay_out : Symbol → Address → ℤ → PoolCall
  pay_out_tier : Symbol → InsuranceTier → Address → ℤ → PoolCall
  reserve_payout : Symbol → ℤ → PoolCall
  claim_payout : Symbol → Address → ℤ → PoolCall
  reserve_payout_tier : Symbol → InsuranceTier → ℤ → PoolCall
  claim_payout_tier : Symbol → InsuranceTier → Address → ℤ → PoolCall
  set_staking_token set_payout_caller set_registry : List Address → Address → PoolCall
  set_yield_rate : List Address → ℕ → PoolCall
  administer : List Address → AdminCall → PoolCall

module _ {W : Type 0} where
  -- An entry point that calls no other contract leaves `w` alone.
  abbrev pub alone : W → Result Insurance → Result (Insurance × W)
  alone w r = r >>= λ s. ok (s, w)

  -- The value that an entry point returns is not part of the state.
  abbrev pub forget {ℓ} : {A : Type ℓ} → Result (A × Insurance × W) → Result (Insurance × W)
  forget r = r >>= λ x. ok (x.1, x.2)

  abbrev pub forget_alone {ℓ} : {A : Type ℓ} → W → Result (A × Insurance) → Result (Insurance × W)
  forget_alone w r = r >>= λ x. ok (x.1, w)

  -- A transaction that traps is undone.
  abbrev pub after : Result (Insurance × W) → Insurance × W → Insurance × W
  after (ok next) before = next
  after (err _) before = before

module _ {W : Type 0} (token : Token W) (registry : RegistryClient W) where
  unfoldable pub perform : Invocation → PoolCall → Insurance → W → Result (Insurance × W)
  perform c (PoolCall.stake who amt) s w = Flat.stake token c who amt s w
  perform c (PoolCall.unstake who amt) s w = Flat.unstake token c who amt s w
  perform c (PoolCall.stake_tier who tier amt) s w = Stakes.stake_tier token c who tier amt s w
  perform c (PoolCall.unstake_tier who tier amt) s w = Stakes.unstake_tier token c who tier amt s w
  perform c (PoolCall.pay_out invoice_id who amt) s w =
      forget (Payout.pay_out token registry c invoice_id who amt s w)
  perform c (PoolCall.pay_out_tier invoice_id tier who amt) s w =
      forget (Payouts.pay_out_tier token registry c invoice_id tier who amt s w)
  perform c (PoolCall.reserve_payout offer_id amt) s w =
      forget_alone w (Payout.reserve_payout c offer_id amt s)
  perform c (PoolCall.claim_payout offer_id who amt) s w =
      forget (Payout.claim_payout token c offer_id who amt s w)
  perform c (PoolCall.reserve_payout_tier offer_id tier amt) s w =
      forget_alone w (Payouts.reserve_payout_tier c offer_id tier amt s)
  perform c (PoolCall.claim_payout_tier offer_id tier who amt) s w =
      forget (Payouts.claim_payout_tier token c offer_id tier who amt s w)
  perform c (PoolCall.set_staking_token signers addr) s w =
      alone w (Settings.set_staking_token c signers addr s)
  perform c (PoolCall.set_payout_caller signers addr) s w =
      alone w (Settings.set_payout_caller c signers addr s)
  perform c (PoolCall.set_registry signers addr) s w =
      alone w (Settings.set_registry c signers addr s)
  perform c (PoolCall.set_yield_rate signers rate) s w =
      alone w (Settings.set_yield_rate c signers rate s)
  perform c (PoolCall.administer signers call) s w =
      alone w (Settings.administer_pool c signers call s)

  -- One transaction after the other.
  unfoldable pub run : List (Invocation × PoolCall) → Insurance × W → Insurance × W
  run [] state = state
  run ((c, call) ∷ rest) state = run rest (after (perform c call state.0 state.1) state)
