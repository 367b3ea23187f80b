-- ===== src/Insurance/PausingTests.antt =====
-- A paused pool.
use invofi_contracts.Prelude.{inl, ℕ, ◌≡◌, refl, true, some, [], ◌∷◌, arith}
use invofi_contracts.Prelude.Int.{pos, ◌-ℤ◌}
use invofi_contracts.Prelude.Maps.{ℕ_key, set}
use invofi_contracts.Host.Outcome.{ok, err, contract, paused}
use invofi_contracts.Host.Machine.{sub_i128}
use invofi_contracts.Insurance.State.{Insurance}
use invofi_contracts.Insurance.Yield.{Accounts, compute_yield, bank_accrued_yield}
use invofi_contracts.Insurance.Flat.{unstake}
use invofi_contracts.Insurance.Calls.{PoolCall, perform}
use invofi_contracts.Insurance.Pausing.{perform-paused, unstake-open}
use invofi_contracts.Insurance.Tests.{counting_token, default_registry, call, storage, pool}

abbrev stopped : Insurance
stopped = record pool { store = record storage { paused = some true } }

perform-paused_example :
    perform counting_token default_registry call (PoolCall.pay_out 70 4 (pos 1000)) stopped 0
    ≡ err (contract paused)
perform-paused_example =
    perform-paused counting_token default_registry call (PoolCall.pay_out 70 4 (pos 1000)) stopped 0
      refl refl

abbrev checkpointed : Accounts ℕ
checkpointed = record { timestamps = (1, 5000) ∷ []; accruals = [] }

banked :
    bank_accrued_yield 0 1 pool.stakes 5000 (record { timestamps = []; accruals = [] })
    ≡ ok checkpointed
unfolding bank_accrued_yield compute_yield set
banked = refl

kept : sub_i128 (pos 3000000) (pos 500000) ≡ ok (pos 2500000)
unfolding sub_i128 ◌-ℤ◌
kept = refl

less : sub_i128 (pos 5000000) (pos 500000) ≡ ok (pos 4500000)
unfolding sub_i128 ◌-ℤ◌
less = refl

unstake-open_example :
    (s' : Insurance) × (w' : ℕ) × (unstake counting_token call 1 (pos 500000) stopped 0
      ≡ ok (s', w'))
unstake-open_example =
    unstake-open counting_token call 1 (pos 500000) stopped 0 50 checkpointed (pos 2500000)
      (pos 4500000) 1 refl (omega arith) (omega arith) banked kept less refl refl
      (inl (omega arith))
