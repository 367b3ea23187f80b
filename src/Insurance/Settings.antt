-- ===== src/Insurance/Settings.antt =====
-- The constructor, the admin settings and the risk view of insurance/src/lib.rs.
use invofi_contracts.Prelude.{
  ℕ, ◌+◌, Bool, true, false, none, some, List, [], ◌∷◌, ltb, leb, ◌==◌, if◌then◌else◌,
}
use invofi_contracts.Prelude.Int.{ℤ, pos, leb_ℤ}
use invofi_contracts.Prelude.Maps.{Map, keys}
use invofi_contracts.Host.Outcome.{Address, Hash, Result, ok, ◌>>=◌, ◌>>◌, Invocation}
use invofi_contracts.Common.Types.{Text}
use invofi_contracts.Common.Storage.{empty_storage, assert_not_paused}
use invofi_contracts.Common.Governance.{init_admin_config, assert_admin}
use invofi_contracts.Common.Upgrade.{initialize_contract_version}
use invofi_contracts.Common.Contract.Calls.{AdminCall, administer}
use invofi_contracts.Insurance.State.{
  Insurance, InsuranceTier, risk_age_secs, risk_large_invoice_amount,
}
use invofi_contracts.Insurance.Yield.{Accounts, bank_accrued_yield}

-- `__constructor`
unfoldable pub constructor : Hash → Address → Address → Text → Result Insurance
constructor wasm admin token version = do
  governed ← init_admin_config admin (empty_storage wasm)
  store ← initialize_contract_version version governed
  ok (record {
    store = record store { token = some token };
    paycall = none;
    registry = none;
    stakes = [];
    pooltot = pos 0;
    yldrate = 0;
    stk_ts = [];
    yld_acc = [];
    tot_out = pos 0;
    resrvd = [];
    paid = [];
    pools = [];
    tstakes = [];
    tstk_ts = [];
    tyld_acc = [];
    tresrv = [];
    tpaid = [];
  })

unfoldable pub set_staking_token :
    Invocation → List Address → Address → Insurance → Result Insurance
set_staking_token c signers token s = do
  assert_not_paused s.store
  assert_admin c signers s.store
  ok (record s { store = record (s.store) { token = some token } })

unfoldable pub set_payout_caller :
    Invocation → List Address → Address → Insurance → Result Insurance
set_payout_caller c signers payout_caller s = do
  assert_not_paused s.store
  assert_admin c signers s.store
  ok (record s { paycall = some payout_caller })

-- Not guarded by the pause.
unfoldable pub set_registry : Invocation → List Address → Address → Insurance → Result Insurance
set_registry c signers registry s = do
  assert_admin c signers s.store
  ok (record s { registry = some registry })

-- The loop of `set_yield_rate` over the stakers.
unfoldable pub bank_all :
    ℕ → Map Address ℤ → ℕ → List Address → Accounts Address → Result (Accounts Address)
bank_all rate stakes now [] a = ok a
bank_all rate stakes now (key ∷ rest) a =
    bank_accrued_yield rate key stakes now a >>= bank_all rate stakes now rest

unfoldable pub set_yield_rate : Invocation → List Address → ℕ → Insurance → Result Insurance
set_yield_rate c signers rate_bps s = do
  assert_not_paused s.store
  assert_admin c signers s.store
  a ←
      bank_all s.yldrate s.stakes c.now (keys s.stakes)
        (record { timestamps = s.stk_ts; accruals = s.yld_acc })
  ok (record s { stk_ts = a.timestamps; yld_acc = a.accruals; yldrate = rate_bps })

-- The administration that all contracts share, on the instance storage.
unfoldable pub administer_pool :
    Invocation → List Address → AdminCall → Insurance → Result Insurance
administer_pool c signers call s = do
  store ← administer c signers call s.store
  ok (record s { store = store })

abbrev point : Bool → ℕ
point true = 1
point false = 0

abbrev tier_of_points : ℕ → InsuranceTier
tier_of_points points =
    if points == 0
    then InsuranceTier.conservative
    else if points == 1
    then InsuranceTier.balanced
    else InsuranceTier.aggressive

unfoldable pub assess_risk : ℕ → ℕ → ℕ → ℤ → InsuranceTier
assess_risk invoice_age_secs originator_repayments originator_defaults invoice_amount =
    if leb_ℤ invoice_amount (pos 0)
    then InsuranceTier.aggressive
    else tier_of_points (
        point (leb risk_age_secs invoice_age_secs)
        + point (ltb originator_repayments originator_defaults)
        + point (leb_ℤ risk_large_invoice_amount invoice_amount))
