-- ===== src/Common/Contract.antt =====
-- The entry points that every contract repeats over its instance storage: the administration of
-- reputation/src/lib.rs, which the other contracts have word for word.
pub mod Calls
pub mod Views
pub mod Administration
use invofi_contracts.Prelude.{ℕ, true, false, Option, none, some, List, [], ◌∷◌}
use invofi_contracts.Prelude.Lists.{head?}
use invofi_contracts.Host.Outcome.{
  Address, Hash, Result, ok, ◌>>=◌, ◌>>◌, panicked, unwrap, Invocation,
}
use invofi_contracts.Common.Types.{AdminConfig, Text}
use invofi_contracts.Common.Storage.{Storage, assert_not_paused}
use invofi_contracts.Common.Governance.{
  load_admin_config, save_admin_config, validate_signers, assert_admin,
}
use invofi_contracts.Common.Upgrade.{
  begin_upgrade, complete_upgrade, rollback_target, commit_rollback, install,
}

unfoldable pub get_admin : Storage → Result Address
unfolding load_admin_config
get_admin s = do cfg ← load_admin_config s; unwrap (head? cfg.signers) panicked

unfoldable pub set_signers : Invocation → List Address → List Address → ℕ → Storage → Result Storage
unfolding save_admin_config
set_signers c signers new_signers new_threshold s = do
  assert_not_paused s
  assert_admin c signers s
  validate_signers new_signers new_threshold
  ok (save_admin_config (record { signers = new_signers; threshold = new_threshold }) s)

unfoldable pub transfer_admin : Invocation → List Address → Address → Storage → Result Storage
unfolding save_admin_config
transfer_admin c signers new_admin s = do
  assert_not_paused s
  assert_admin c signers s
  ok (save_admin_config (record { signers = new_admin ∷ []; threshold = 1 }) s)

unfoldable pub pause : Invocation → List Address → Storage → Result Storage
pause c signers s = do assert_admin c signers s; ok (record s { paused = some true })

unfoldable pub unpause : Invocation → List Address → Storage → Result Storage
unpause c signers s = do assert_admin c signers s; ok (record s { paused = some false })

-- The hooks `pre_upgrade` and `post_upgrade` of this contract are empty.
unfoldable pub upgrade : Invocation → List Address → Hash → Hash → Text → Storage → Result Storage
upgrade c signers current_wasm_hash new_wasm_hash new_version s = do
  assert_admin c signers s
  s' ← begin_upgrade current_wasm_hash new_wasm_hash new_version s
  ok (install new_wasm_hash s')

unfoldable pub post_upgrade : Invocation → List Address → Storage → Result Storage
post_upgrade c signers s = do assert_admin c signers s; complete_upgrade s

unfoldable pub rollback : Invocation → List Address → Storage → Result Storage
rollback c signers s = do
  assert_admin c signers s
  (wasm_hash, version) ← rollback_target s
  ok (install wasm_hash (commit_rollback version s))
