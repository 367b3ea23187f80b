-- ===== src/Financing/Settings.antt =====
-- The constructor and the admin settings of financing/src/lib.rs.
use invofi_contracts.Prelude.{ℕ, ◌&&◌, Option, none, some, List, [], leb}
use invofi_contracts.Host.Outcome.{
  Address, Symbol, Hash, Result, ok, ◌>>=◌, ◌>>◌, contract, invalid_input, panicked, guard, unwrap,
  Invocation,
}
use invofi_contracts.Common.Types.{Text}
use invofi_contracts.Common.Domain.{min_negotiation_window_secs, max_negotiation_window_secs}
use invofi_contracts.Common.Storage as Storage
use invofi_contracts.Common.Storage.{empty_storage, assert_not_paused}
use invofi_contracts.Common.Governance.{init_admin_config, assert_admin}
use invofi_contracts.Common.Upgrade.{initialize_contract_version}
use invofi_contracts.Common.Contract.Calls.{AdminCall, administer}
use invofi_contracts.Financing.State.{Financing, no_stats}

-- `__constructor`
unfoldable pub constructor : Hash → Address → Address → Address → Text → Result Financing
constructor wasm admin registry token version = do
  governed ← init_admin_config admin (empty_storage wasm)
  store ← initialize_contract_version version governed
  ok (record {
    store = record store { token = some token };
    registry = some registry;
    repayment = none;
    postok = none;
    negwin = none;
    feebps = none;
    offers = [];
    lstats = [];
    stats = no_stats;
    scheds = [];
    negot = [];
    negdl = [];
    negend = [];
  })

unfoldable pub set_repayment_contract :
    Invocation → List Address → Address → Financing → Result Financing
set_repayment_contract c signers repayment s = do
  assert_not_paused s.store
  assert_admin c signers s.store
  ok (record s { repayment = some repayment })

unfoldable pub get_registry : Financing → Result Address
get_registry s = unwrap s.registry panicked

unfoldable pub register_currency :
    Invocation → List Address → Symbol → Address → Financing → Result Financing
register_currency c signers currency token_addr s = do
  assert_not_paused s.store
  assert_admin c signers s.store
  ok (record s { store = Storage.register_currency currency token_addr s.store })

unfoldable pub get_currency_token : Symbol → Financing → Option Address
get_currency_token currency s = Storage.get_currency_token currency s.store

unfoldable pub set_position_token :
    Invocation → List Address → Address → Financing → Result Financing
set_position_token c signers token s = do
  assert_not_paused s.store
  assert_admin c signers s.store
  ok (record s { postok = some token })

unfoldable pub get_position_token : Financing → Option Address
get_position_token s = s.postok

unfoldable pub set_negotiation_window : Invocation → List Address → ℕ → Financing → Result Financing
set_negotiation_window c signers window_secs s = do
  assert_not_paused s.store
  assert_admin c signers s.store
  guard (leb min_negotiation_window_secs window_secs && leb window_secs max_negotiation_window_secs)
      (contract invalid_input)
  ok (record s { negwin = some window_secs })

-- The administration that every contract has.
unfoldable pub administer_financing :
    Invocation → List Address → AdminCall → Financing → Result Financing
administer_financing c signers call s = do
  store ← administer c signers call s.store
  ok (record s { store = store })
