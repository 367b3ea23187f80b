-- ===== src/Repayment/Settings.antt =====
-- The constructor and the admin settings of repayment/src/lib.rs.
use invofi_contracts.Prelude.{ℕ, none, some, List, [], leb}
use invofi_contracts.Host.Outcome.{
  Address, Hash, Result, ok, ◌>>=◌, ◌>>◌, contract, invalid_input, guard, Invocation,
}
use invofi_contracts.Common.Types.{Text}
use invofi_contracts.Common.Storage.{empty_storage, assert_not_paused}
use invofi_contracts.Common.Governance.{init_admin_config, assert_admin}
use invofi_contracts.Common.Upgrade.{initialize_contract_version}
use invofi_contracts.Common.Contract.Calls.{AdminCall, administer}
use invofi_contracts.Repayment.State.{Repayment, max_penalty_bps}

-- `__constructor`
unfoldable pub constructor : Hash → Address → Address → Address → Address → Text → Result Repayment
constructor wasm admin registry financing token version = do
  governed ← init_admin_config admin (empty_storage wasm)
  store ← initialize_contract_version version governed
  ok (record {
    store = record store { token = some token };
    registry = some registry;
    financing = some financing;
    insadd = none;
    repadd = none;
    penbps = 0;
    pencap = 0;
    pays = [];
  })

unfoldable pub set_insurance : Invocation → List Address → Address → Repayment → Result Repayment
set_insurance c signers insurance s = do
  assert_not_paused s.store
  assert_admin c signers s.store
  ok (record s { insadd = some insurance })

unfoldable pub set_reputation : Invocation → List Address → Address → Repayment → Result Repayment
set_reputation c signers reputation s = do
  assert_not_paused s.store
  assert_admin c signers s.store
  ok (record s { repadd = some reputation })

unfoldable pub set_penalty : Invocation → List Address → ℕ → ℕ → Repayment → Result Repayment
set_penalty c signers penalty_bps cap_bps s = do
  assert_not_paused s.store
  assert_admin c signers s.store
  guard (leb penalty_bps max_penalty_bps) (contract invalid_input)
  guard (leb cap_bps 10000) (contract invalid_input)
  ok (record s { penbps = penalty_bps; pencap = cap_bps })

-- The administration that every contract has.
unfoldable pub administer_repayment :
    Invocation → List Address → AdminCall → Repayment → Result Repayment
administer_repayment c signers call s = do
  store ← administer c signers call s.store
  ok (record s { store = store })
