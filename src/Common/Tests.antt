-- ===== src/Common/Tests.antt =====
-- A concrete administration, upgrade and history, and the theorems on them.
use invofi_contracts.Prelude.{◌≤◌, ◌≡◌, refl, ◌⊎◌, ◌↔◌, true, some, none, [], ◌∷◌, arith}
use invofi_contracts.Prelude.Maps.{ℕ_key, set}
use invofi_contracts.Host.Outcome.{Symbol, ok, Invocation}
use invofi_contracts.Host.Events.{word, address, symbol, number, text}
use invofi_contracts.Common.Types.{AdminConfig, InvoiceStatus, TransitionRecord, Text}
use invofi_contracts.Common.Storage.{Storage, empty_storage, assert_not_paused, publish}
use invofi_contracts.Common.Governance.{validate_signers, assert_threshold, assert_admin}
use invofi_contracts.Common.Threshold.{IsApproval, assert_threshold_iff}
use invofi_contracts.Common.Signers.{IsWellFormed, validate_signers_iff}
use invofi_contracts.Common.Version.{parse_semantic_version}
use invofi_contracts.Common.Version.RoundTrip.{print_version, parse_semantic_version-print}
use invofi_contracts.Common.Upgrade.{begin_upgrade, complete_upgrade, rollback_target}
use invofi_contracts.Common.UpgradeLaws.{IsNewer, upgrade_cycle}
use invofi_contracts.Common.Transition.{
  validate_transition, assert_transition, get_transition_history,
}
use invofi_contracts.Common.Lifecycle.{
  ◌⟶◌, validate_transition_iff, keep_last, entry_of, assert_transition-history,
}
use invofi_contracts.Common.Contract.{set_signers}
use invofi_contracts.Common.Contract.Calls.{AdminCall, administer}
use invofi_contracts.Common.Contract.Administration.{IsGoverned, administer-approved}

abbrev call : Invocation
call = record { self = 99; now = 5000; auth = λ who. true }

abbrev old_version : Text
old_version = b'1' ∷ b'.' ∷ b'2' ∷ b'.' ∷ b'3' ∷ []

abbrev new_version : Text
new_version = b'1' ∷ b'.' ∷ b'1' ∷ b'0' ∷ b'.' ∷ b'0' ∷ []

-- Two of three.
abbrev council : AdminConfig
council = record { signers = 1 ∷ 2 ∷ 3 ∷ []; threshold = 2 }

abbrev storage : Storage
storage = record (empty_storage 7) { admcfg = some council; version = some old_version }

assert_threshold_iff_example :
    (assert_threshold call council (3 ∷ 1 ∷ []) ≡ ok tt)
    ↔ (IsApproval call council [] (3 ∷ 1 ∷ []) × (2 ≤ 2))
assert_threshold_iff_example = assert_threshold_iff call council (3 ∷ 1 ∷ [])

validate_signers_iff_example :
    (validate_signers (1 ∷ 2 ∷ 1 ∷ []) 2 ≡ ok tt) ↔ IsWellFormed (1 ∷ 2 ∷ 1 ∷ []) 2
validate_signers_iff_example = validate_signers_iff (1 ∷ 2 ∷ 1 ∷ []) 2

council_valid : validate_signers (1 ∷ 2 ∷ 3 ∷ []) 2 ≡ ok tt
unfolding validate_signers
council_valid = refl

storage-IsGoverned : IsGoverned storage
storage-IsGoverned = record {
  cfg = council;
  stored = refl;
  formed = (validate_signers_iff (1 ∷ 2 ∷ 3 ∷ []) 2).0 council_valid;
}

abbrev new_council : Storage
new_council = record storage { admcfg = some (record { signers = 4 ∷ 5 ∷ []; threshold = 1 }) }

set_council :
    administer call (1 ∷ 2 ∷ []) (AdminCall.set_signers (4 ∷ 5 ∷ []) 1) storage ≡ ok new_council
unfolding administer set_signers assert_not_paused assert_admin assert_threshold validate_signers
set_council = refl

administer-approved_example :
    (cfg : AdminConfig) × (storage.admcfg ≡ some cfg)
    × IsApproval call cfg [] (1 ∷ 2 ∷ [])
    × (cfg.threshold ≤ 2)
administer-approved_example =
    administer-approved call (1 ∷ 2 ∷ []) (AdminCall.set_signers (4 ∷ 5 ∷ []) 1) storage set_council

abbrev stopped : Storage
stopped = record storage { paused = some true }

parse_semantic_version-print_example :
    parse_semantic_version (print_version (record { major = 1; minor = 20; patch = 4294967295 }))
    ≡ ok (record { major = 1; minor = 20; patch = 4294967295 })
parse_semantic_version-print_example =
    parse_semantic_version-print (record { major = 1; minor = 20; patch = 4294967295 })
      (record { major_fits = omega arith; minor_fits = omega arith; patch_fits = omega arith })

abbrev begun : Storage
begun = record storage {
  previous_version = some old_version;
  previous_wasm = some 7;
  pending_upgrade = some (record { version = new_version; wasm_hash = 8 });
}

abbrev completed : Storage
completed =
    publish (word "contract_upgraded" ∷ []) (text new_version ∷ [])
      (record begun { version = some new_version; pending_upgrade = none })

begin_storage : begin_upgrade 7 8 new_version storage ≡ ok begun
unfolding begin_upgrade parse_semantic_version
begin_storage = refl

complete_begun : complete_upgrade begun ≡ ok completed
unfolding complete_upgrade
complete_begun = refl

upgrade_cycle_example :
    (old : Text) × (storage.version ≡ some old)
    × (storage.pending_upgrade ≡ none)
    × IsNewer new_version old
    × (begun.version ≡ some old)
    × (completed.version ≡ some new_version)
    × (completed.pending_upgrade ≡ none)
    × (rollback_target completed ≡ ok (7, old))
upgrade_cycle_example = upgrade_cycle 7 8 new_version storage begin_storage complete_begun

target : rollback_target completed ≡ ok (7, old_version)
unfolding rollback_target
target = refl

validate_transition_iff_example :
    (validate_transition InvoiceStatus.overdue InvoiceStatus.repaid ≡ ok tt)
    ↔ (InvoiceStatus.overdue ⟶ InvoiceStatus.repaid)
validate_transition_iff_example = validate_transition_iff InvoiceStatus.overdue InvoiceStatus.repaid

abbrev first_entry : TransitionRecord
first_entry = entry_of call InvoiceStatus.pending InvoiceStatus.financed 2

abbrev moved : Storage
moved = record storage {
  trn_log = (70, first_entry ∷ []) ∷ [];
  log =
      record {
        topics = word "inv_trx" ∷ symbol 70 ∷ [];
        content = number 0 ∷ number 1 ∷ address 2 ∷ [];
      }
      ∷ [];
}

move_invoice :
    assert_transition call 70 InvoiceStatus.pending InvoiceStatus.financed 2 storage ≡ ok moved
unfolding assert_transition set
move_invoice = refl

no_history : get_transition_history 70 storage ≡ keep_last 20 []
unfolding get_transition_history
no_history = refl

assert_transition-history_example :
    (InvoiceStatus.pending ⟶ InvoiceStatus.financed)
    × (get_transition_history 70 moved ≡ keep_last 20 (first_entry ∷ []))
    × ((j : Symbol)
        → (j ≡ 70) ⊎ (get_transition_history j moved ≡ get_transition_history j storage))
assert_transition-history_example =
    assert_transition-history call 70 InvoiceStatus.pending InvoiceStatus.financed 2 storage []
      no_history move_invoice
