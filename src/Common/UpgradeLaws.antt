-- ===== src/Common/UpgradeLaws.antt =====
-- The laws of the upgrades of common/src/lib.rs.
use invofi_contracts.Prelude.{◌≡◌, false, none, some, arith, inl, inr, Option-cases}
use invofi_contracts.Host.Outcome.{Hash, ok, err, contract, rollback_unavailable, Result-cases}
use invofi_contracts.Common.Types.{Text, SemanticVersion}
use invofi_contracts.Common.Storage.{Storage}
use invofi_contracts.Common.Version.{parse_semantic_version, version_le}
use invofi_contracts.Common.Upgrade.{
  begin_upgrade, complete_upgrade, rollback_target, commit_rollback,
}

-- The two texts are versions, and the first is strictly the newer one.
abbrev pub IsNewer : Text → Text → Type 0
IsNewer new old =
    (v : SemanticVersion) × (w : SemanticVersion) × (parse_semantic_version new ≡ ok v)
    × (parse_semantic_version old ≡ ok w)
    × (version_le v w ≡ false)

-- An upgrade that begins and completes was not begun on top of another, moves from the recorded
-- version to a strictly newer one, and leaves no upgrade pending; what the rollback will then restore
-- is the version that ran before and the executable that the caller named.
pub upgrade_cycle :
    (current_wasm new_wasm : Hash) (new_version : Text) (s : Storage) {begun completed : Storage}
    → begin_upgrade current_wasm new_wasm new_version s ≡ ok begun
    → complete_upgrade begun ≡ ok completed
    → (old : Text) × (s.version ≡ some old)
      × (s.pending_upgrade ≡ none)
      × IsNewer new_version old
      × (begun.version ≡ some old)
      × (completed.version ≡ some new_version)
      × (completed.pending_upgrade ≡ none)
      × (rollback_target completed ≡ ok (current_wasm, old))
unfolding begin_upgrade complete_upgrade rollback_target
upgrade_cycle current_wasm new_wasm new_version s h k = elim (Option-cases s.version) [
  | inl fresh ↦ absurd (ground arith)
  | inr (old, e) ↦ elim (Result-cases (parse_semantic_version new_version)) [
    | inr (x, bad) ↦ absurd (ground arith)
    | inl (v, parsed) ↦ elim (Result-cases (parse_semantic_version old)) [
      | inr (x, bad) ↦ absurd (ground arith)
      | inl (w, parsed_old) ↦ (
        old,
        e,
        ground arith,
        (v, w, parsed, parsed_old, ground arith),
        ground arith,
        ground arith,
        ground arith,
        ground arith,
      )
    ]
  ]
]

-- A rollback is refused while an upgrade is pending, and it can be done only once: after it no
-- target is left.
pub rollback_once :
    (s : Storage) {wasm : Hash} {version : Text}
    → rollback_target s ≡ ok (wasm, version)
    → (s.pending_upgrade ≡ none)
      × ((commit_rollback version s).version ≡ some version)
      × (rollback_target (commit_rollback version s) ≡ err (contract rollback_unavailable))
unfolding rollback_target commit_rollback
rollback_once s h = (ground arith, ground arith, ground arith)
