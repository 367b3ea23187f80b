-- ===== src/Insurance/YieldTests.antt =====
-- Concrete yields, and the theorems on them.
use invofi_contracts.Prelude.{◌≡◌, refl, some, [], ◌∷◌, arith}
use invofi_contracts.Prelude.Int.{pos, ◌+ℤ◌, ◌*ℤ◌, quot}
use invofi_contracts.Prelude.Maps.{ℕ_key, set}
use invofi_contracts.Host.Outcome.{ok}
use invofi_contracts.Host.Machine.{add_i128, mul_i128, div_i128}
use invofi_contracts.Common.Storage.{assert_not_paused}
use invofi_contracts.Common.Governance.{
  load_admin_config, is_signer, count_signers, assert_threshold, assert_admin,
}
use invofi_contracts.Insurance.State.{Insurance}
use invofi_contracts.Insurance.Yield.{compute_yield, credit, bank_accrued_yield, accrued_yield}
use invofi_contracts.Insurance.Settings.{bank_all, set_yield_rate}
use invofi_contracts.Insurance.YieldLaws.{compute_yield_exact}
use invofi_contracts.Insurance.Prospective.{set_yield_rate-prospective}
use invofi_contracts.Insurance.Tests.{call, storage, pool}

-- A year at five per cent, and half a year at ten.
compute_yield_exact_example : compute_yield (pos 1000000) 500 31536000 ≡ ok (pos 50000)
compute_yield_exact_example = compute_yield_exact 1000000 500 31536000 (omega arith)

-- Staker 1 has 4000 seconds of yield.
abbrev governed : Insurance
governed = record pool {
  store = record storage { admcfg = some (record { signers = 8 ∷ []; threshold = 1 }) };
  yldrate = 500;
  stk_ts = (1, 1000) ∷ (2, 5000) ∷ [];
}

abbrev rated : Insurance
rated = record governed {
  yldrate = 0;
  stk_ts = (1, 5000) ∷ (2, 5000) ∷ [];
  yld_acc = (1, pos 19) ∷ [];
}

set_yield_rate_pool : set_yield_rate call (8 ∷ []) 0 governed ≡ ok rated
unfolding set_yield_rate bank_all bank_accrued_yield compute_yield credit assert_not_paused
    assert_admin load_admin_config assert_threshold count_signers is_signer add_i128 mul_i128
    div_i128 ◌+ℤ◌ ◌*ℤ◌ quot set
set_yield_rate_pool = refl

set_yield_rate-prospective_example : accrued_yield 5000 1 rated ≡ accrued_yield 5000 1 governed
set_yield_rate-prospective_example =
    set_yield_rate-prospective call (8 ∷ []) 0 governed 1 (omega arith) set_yield_rate_pool
