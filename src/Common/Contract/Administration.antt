-- ===== src/Common/Contract/Administration.antt =====
-- The laws of the administrative entry points.
use invofi_contracts.Prelude.{
  ℕ, ◌≤◌, ◌≡◌, refl, true, false, some, List, [], ◌∷◌, arith, inl, inr, Option-cases,
}
use invofi_contracts.Prelude.Lists.{length}
use invofi_contracts.Host.Outcome.{Address, ok, err, contract, paused, Invocation, ◌>>◌}
use invofi_contracts.Common.Types.{AdminConfig}
use invofi_contracts.Common.Storage.{Storage, assert_not_paused}
use invofi_contracts.Common.Governance.{assert_admin, assert_threshold}
use invofi_contracts.Common.Threshold.{IsApproval, assert_threshold_iff}
use invofi_contracts.Common.Signers.{IsWellFormed, validate_signers_iff}
use invofi_contracts.Common.Upgrade.{begin_upgrade, complete_upgrade, commit_rollback}
use invofi_contracts.Common.Contract.Calls.{AdminCall, administer}
use invofi_contracts.Common.Contract.{
  set_signers, transfer_admin, pause, unpause, upgrade, post_upgrade, rollback,
}

-- The stored configuration is there and well-formed.
pub record IsGoverned (s : Storage) : Type 0 where
  pub cfg : AdminConfig
  pub stored : s.admcfg ≡ some cfg
  pub formed : IsWellFormed cfg.signers cfg.threshold

pub one_signer : (a : Address) → IsWellFormed (a ∷ []) 1
one_signer a = record {
  few = omega arith;
  positive = omega arith;
  reachable = omega arith;
  distinct = (refl, tt);
}

keeps : {s s' : Storage} → IsGoverned s → s'.admcfg ≡ s.admcfg → IsGoverned s'
keeps g e = record { cfg = g.cfg; stored = ground arith; formed = g.formed }

-- Every administrative call that succeeds leaves a well-formed signer set: 1 to 20 distinct
-- addresses, with a threshold between 1 and their number.
pub administer-IsGoverned :
    (c : Invocation) (signers : List Address) (call : AdminCall) (s : Storage) {s' : Storage}
    → IsGoverned s
    → administer c signers call s ≡ ok s'
    → IsGoverned s'
unfolding administer
administer-IsGoverned c signers (AdminCall.set_signers new_signers new_threshold) s g h =
    unfold set_signers in
    record {
      cfg = record { signers = new_signers; threshold = new_threshold };
      stored = ground arith;
      formed = (validate_signers_iff new_signers new_threshold).0 (ground arith);
    }
administer-IsGoverned c signers (AdminCall.transfer_admin new_admin) s g h =
    unfold transfer_admin in
    record {
      cfg = record { signers = new_admin ∷ []; threshold = 1 };
      stored = ground arith;
      formed = one_signer new_admin;
    }
administer-IsGoverned c signers AdminCall.pause s g h = keeps g (unfold pause in ground arith)
administer-IsGoverned c signers AdminCall.unpause s g h = keeps g (unfold unpause in ground arith)
administer-IsGoverned c signers AdminCall.post_upgrade s g h =
    keeps g (unfold post_upgrade complete_upgrade in ground arith)
administer-IsGoverned c signers AdminCall.rollback s g h =
    keeps g (unfold rollback commit_rollback in ground arith)
administer-IsGoverned c signers (AdminCall.upgrade current_hash new_hash new_version) s g h =
    keeps g (unfold upgrade begin_upgrade in ground arith)

admin_first :
    (c : Invocation) (signers : List Address) (call : AdminCall) (s : Storage) {s' : Storage}
    → administer c signers call s ≡ ok s'
    → assert_admin c signers s ≡ ok tt
unfolding administer set_signers transfer_admin pause unpause upgrade post_upgrade rollback
admin_first c signers (AdminCall.set_signers _ _) s h = ground arith
admin_first c signers _ s h = ground arith

-- Every administrative call that succeeds was made with distinct signers of the current
-- configuration, at least its threshold, who all authorized it.
pub administer-approved :
    (c : Invocation) (signers : List Address) (call : AdminCall) (s : Storage) {s' : Storage}
    → administer c signers call s ≡ ok s'
    → (cfg : AdminConfig) × (s.admcfg ≡ some cfg)
      × IsApproval c cfg [] signers
      × (cfg.threshold ≤ length signers)
unfolding assert_admin
administer-approved c signers call s h = elim (Option-cases s.admcfg) [
  | inl absent ↦ absurd (ground (arith, admin_first c signers call s h))
  | inr (cfg, e) ↦
      let passed : assert_threshold c cfg signers ≡ ok tt =
        ground (arith, admin_first c signers call s h) in
      let (approval, reached) = (assert_threshold_iff c cfg signers).0 passed in
      (cfg, e, approval, reached)
]

-- While the contract is paused the signers cannot be changed, but the pause can be lifted.
pub administer-paused :
    (c : Invocation) (signers : List Address) (s : Storage) (new_signers : List Address)
    (threshold : ℕ) (new_admin : Address)
    → s.paused ≡ some true
    → (administer c signers (AdminCall.set_signers new_signers threshold) s ≡ err (contract paused))
      × (administer c signers (AdminCall.transfer_admin new_admin) s ≡ err (contract paused))
      × (administer c signers AdminCall.unpause s
          ≡ (assert_admin c signers s >> ok (record s { paused = some false })))
unfolding administer set_signers transfer_admin unpause assert_not_paused
administer-paused c signers s new_signers threshold new_admin h = (ground arith, ground arith, refl)
