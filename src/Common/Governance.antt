-- ===== src/Common/Governance.antt =====
-- Multisig admin governance of common/src/lib.rs (ADR-0010).
use invofi_contracts.Prelude.{
  ℕ, suc, Bool, true, false, not, ◌&&◌, ◌||◌, Option, none, some, List, [], ◌∷◌, ◌++◌, ltb, ◌==◌,
  if◌then◌else◌,
}
use invofi_contracts.Prelude.Lists.{length, contains, is_empty}
use invofi_contracts.Host.Outcome.{
  Address, Result, ok, Done, ◌>>=◌, ◌>>◌, contract, unauthorized, invalid_input, panicked, guard,
  unwrap, Invocation, require_auth,
}
use invofi_contracts.Common.Types.{AdminConfig, max_admin_signers}
use invofi_contracts.Common.Storage.{Storage}

unfoldable pub load_admin_config : Storage → Result AdminConfig
load_admin_config s = unwrap s.admcfg panicked

unfoldable pub save_admin_config : AdminConfig → Storage → Storage
save_admin_config cfg s = record s { admcfg = some cfg }

abbrev absent : Option AdminConfig → Bool
absent none = true
absent (some _) = false

unfoldable pub init_admin_config : Address → Storage → Result Storage
unfolding save_admin_config
init_admin_config admin s = do
  guard (absent s.admcfg) panicked
  ok (save_admin_config (record { signers = admin ∷ []; threshold = 1 }) s)

unfoldable pub is_signer : AdminConfig → Address → Bool
is_signer cfg who = contains cfg.signers who

-- The inner loop of `validate_signers`: is there a place `j`, other than `i`, that holds `a`?
unfoldable pub clash : ℕ → Address → ℕ → List Address → Bool
clash i a j [] = false
clash i a j (b ∷ bs) = if not (i == j) && a == b then true else clash i a (suc j) bs

-- The outer loop, at index `i`.
unfoldable pub any_clash : ℕ → List Address → List Address → Bool
unfolding clash
any_clash i [] every = false
any_clash i (a ∷ rest) every = if clash i a 0 every then true else any_clash (suc i) rest every

unfoldable pub validate_signers : List Address → ℕ → Done
unfolding any_clash
validate_signers signers threshold = do
  guard (not (is_empty signers || ltb max_admin_signers (length signers))) (contract invalid_input)
  guard (not (threshold == 0 || ltb (length signers) threshold)) (contract invalid_input)
  guard (not (any_clash 0 signers signers)) (contract invalid_input)

-- The loop of `assert_threshold`: the addresses counted so far, in order.
unfoldable pub count_signers :
    Invocation → AdminConfig → List Address → List Address → Result (List Address)
unfolding is_signer
count_signers c cfg [] counted = ok counted
count_signers c cfg (who ∷ rest) counted = do
  guard (is_signer cfg who) (contract unauthorized)
  guard (not (contains counted who)) (contract unauthorized)
  require_auth c who
  count_signers c cfg rest (counted ++ who ∷ [])

unfoldable pub assert_threshold : Invocation → AdminConfig → List Address → Done
unfolding count_signers
assert_threshold c cfg provided = do
  counted ← count_signers c cfg provided []
  guard (not (ltb (length counted) cfg.threshold)) (contract unauthorized)

-- `assert_admin` of each contract.
unfoldable pub assert_admin : Invocation → List Address → Storage → Done
unfolding load_admin_config
assert_admin c signers s = do cfg ← load_admin_config s; assert_threshold c cfg signers
