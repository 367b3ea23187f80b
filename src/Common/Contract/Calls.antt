-- ===== src/Common/Contract/Calls.antt =====
-- The administrative entry points of a contract as one dispatcher.
use invofi_contracts.Prelude.{ℕ, List}
use invofi_contracts.Host.Outcome.{Address, Hash, Result, Invocation}
use invofi_contracts.Common.Types.{Text}
use invofi_contracts.Common.Storage.{Storage}
use invofi_contracts.Common.Contract

-- A call of one of them.
pub data AdminCall : Type 0 where
  set_signers : List Address → ℕ → AdminCall
  transfer_admin : Address → AdminCall
  pause unpause post_upgrade rollback : AdminCall
  upgrade : Hash → Hash → Text → AdminCall

unfoldable pub administer : Invocation → List Address → AdminCall → Storage → Result Storage
administer c signers (AdminCall.set_signers new_signers new_threshold) s =
    Contract.set_signers c signers new_signers new_threshold s
administer c signers (AdminCall.transfer_admin new_admin) s =
    Contract.transfer_admin c signers new_admin s
administer c signers AdminCall.pause s = Contract.pause c signers s
administer c signers AdminCall.unpause s = Contract.unpause c signers s
administer c signers AdminCall.post_upgrade s = Contract.post_upgrade c signers s
administer c signers AdminCall.rollback s = Contract.rollback c signers s
administer c signers (AdminCall.upgrade current_hash new_hash new_version) s =
    Contract.upgrade c signers current_hash new_hash new_version s
