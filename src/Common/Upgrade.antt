-- ===== src/Common/Upgrade.antt =====
-- Versions and upgrades of common/src/lib.rs: an upgrade is recorded, its code is installed, a hook
-- completes it, and one previous executable can be restored.
use invofi_contracts.Prelude.{Bool, true, false, not, Option, none, some, [], ◌∷◌}
use invofi_contracts.Host.Outcome.{
  Hash, Result, ok, ◌>>=◌, ◌>>◌, contract, invalid_version, upgrade_pending, upgrade_not_pending,
  rollback_unavailable, panicked, guard, unwrap,
}
use invofi_contracts.Host.Events.{word, text}
use invofi_contracts.Common.Types.{PendingUpgrade, Text}
use invofi_contracts.Common.Storage.{Storage, publish}
use invofi_contracts.Common.Version.{parse_semantic_version, version_le}

unfoldable pub initialize_contract_version : Text → Storage → Result Storage
initialize_contract_version version s = do
  _ ← parse_semantic_version version
  ok (
      publish (word "contract_initialized" ∷ []) (text version ∷ [])
        (record s { version = some version }))

unfoldable pub contract_version : Storage → Result Text
contract_version s = unwrap s.version panicked

abbrev pub has_pending : Option PendingUpgrade → Bool
has_pending none = false
has_pending (some _) = true

unfoldable pub begin_upgrade : Hash → Hash → Text → Storage → Result Storage
unfolding contract_version
begin_upgrade current_wasm_hash new_wasm_hash new_version s = do
  guard (not (has_pending s.pending_upgrade)) (contract upgrade_pending)
  current ← contract_version s
  next ← parse_semantic_version new_version
  running ← parse_semantic_version current
  guard (not (version_le next running)) (contract invalid_version)
  ok (record s {
    previous_version = some current;
    previous_wasm = some current_wasm_hash;
    pending_upgrade = some (record { version = new_version; wasm_hash = new_wasm_hash });
  })

unfoldable pub complete_upgrade : Storage → Result Storage
complete_upgrade s = do
  pending ← unwrap s.pending_upgrade (contract upgrade_not_pending)
  ok (
      publish (word "contract_upgraded" ∷ []) (text pending.version ∷ [])
        (record s { version = some pending.version; pending_upgrade = none }))

unfoldable pub rollback_target : Storage → Result (Hash × Text)
rollback_target s = do
  guard (not (has_pending s.pending_upgrade)) (contract upgrade_pending)
  wasm_hash ← unwrap s.previous_wasm (contract rollback_unavailable)
  version ← unwrap s.previous_version (contract rollback_unavailable)
  ok (wasm_hash, version)

unfoldable pub commit_rollback : Text → Storage → Storage
commit_rollback version s = record s {
  version = some version;
  previous_version = none;
  previous_wasm = none;
}

-- `env.deployer().update_current_contract_wasm(hash)`
abbrev pub install : Hash → Storage → Storage
install hash s = record s { executable = hash }
