-- ===== src/Common/Contract/Views.antt =====
-- The read-only entry points that every contract repeats over its instance storage.
use invofi_contracts.Prelude.{ℕ, List}
use invofi_contracts.Host.Outcome.{Address, Result, ok, ◌>>=◌}
use invofi_contracts.Common.Types.{AdminConfig, Text}
use invofi_contracts.Common.Storage.{Storage}
use invofi_contracts.Common.Governance.{load_admin_config}
use invofi_contracts.Common.Upgrade.{contract_version}

unfoldable pub get_admin_config : Storage → Result AdminConfig
get_admin_config s = load_admin_config s

unfoldable pub get_signers : Storage → Result (List Address)
get_signers s = do cfg ← load_admin_config s; ok cfg.signers

unfoldable pub get_threshold : Storage → Result ℕ
get_threshold s = do cfg ← load_admin_config s; ok cfg.threshold

unfoldable pub version : Storage → Result Text
version s = contract_version s
