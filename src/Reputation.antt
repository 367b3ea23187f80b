-- ===== src/Reputation.antt =====
-- reputation/src/lib.rs: outcomes per originator, and a score that decays by halves.
pub mod Decay
pub mod Records
pub mod Outcomes
pub mod Frequency
pub mod Disputes
pub mod History
pub mod Tests
pub mod HistoryTests
use invofi_contracts.Prelude.{
  ℕ, zero, suc, ◌+◌, ◌-◌, Bool, true, false, not, ◌&&◌, ◌||◌, Option, none, some, List, [], ◌∷◌,
  ltb, leb, ◌==◌, if◌then◌else◌,
}
use invofi_contracts.Prelude.Int.{ℤ, pos, quot, max_ℤ, ◌-ℤ◌, leb_ℤ}
use invofi_contracts.Prelude.Maps.{Map, ℕ_key, get_or, set}
use invofi_contracts.Host.Outcome.{
  Address, Hash, Result, ok, ◌>>=◌, ◌>>◌, contract, invalid_input, panicked, guard, unwrap,
  Invocation, require_auth,
}
use invofi_contracts.Host.Machine.{add_i128, sub_i128, add_u32}
use invofi_contracts.Host.Events.{word, address, number, amount}
use invofi_contracts.Common.Types.{Text}
use invofi_contracts.Common.Storage.{Storage, empty_storage, publish, assert_not_paused}
use invofi_contracts.Common.Governance.{init_admin_config, assert_admin}
use invofi_contracts.Common.Upgrade.{initialize_contract_version}

abbrev pub outcome_repaid : ℕ
outcome_repaid = 0

abbrev pub outcome_defaulted : ℕ
outcome_defaulted = 1

-- 90 days
abbrev pub decay_half_life_secs : ℕ
decay_half_life_secs = 7776000

pub record ReputationRecord : Type 0 where
  pub repayments : ℕ
  pub defaults : ℕ
  pub weighted_repayments : ℤ
  pub weighted_defaults : ℤ
  pub last_recompute : ℕ

abbrev pub no_record : ReputationRecord
no_record = record {
  repayments = 0;
  defaults = 0;
  weighted_repayments = pos 0;
  weighted_defaults = pos 0;
  last_recompute = 0;
}

pub record Reputation : Type 0 where
  pub store : Storage
  pub recorder : Option Address
  pub records : Map Address ReputationRecord

-- The body of the decay loop; `/= 2` cannot trap.
unfoldable pub halve : ReputationRecord → ReputationRecord
halve r = record r {
  weighted_repayments = quot r.weighted_repayments (pos 2);
  weighted_defaults = quot r.weighted_defaults (pos 2);
}

-- `while elapsed >= DECAY_HALF_LIFE_SECS`
unfoldable pub decay_loop : ℕ → ℕ → ReputationRecord → ReputationRecord
unfolding halve
decay_loop zero elapsed r = r
decay_loop (suc fuel) elapsed r =
    let rest = decay_loop fuel (elapsed - decay_half_life_secs) (halve r) in
    if leb decay_half_life_secs elapsed then rest else r

unfoldable pub apply_pending_decay : ReputationRecord → ℕ → ReputationRecord
unfolding decay_loop
apply_pending_decay r now =
    let elapsed = now - r.last_recompute in
    let decayed =
      if ltb r.last_recompute now && ltb 0 r.last_recompute
      then decay_loop (suc elapsed) elapsed r
      else r in
    record decayed { last_recompute = now }

-- `(weighted_repayments - weighted_defaults).max(0)`
unfoldable pub score : ReputationRecord → Result ℤ
score r = do
  difference ← sub_i128 r.weighted_repayments r.weighted_defaults
  ok (max_ℤ difference (pos 0))

-- `__constructor`
unfoldable pub constructor : Hash → Address → Text → Result Reputation
constructor wasm admin version = do
  governed ← init_admin_config admin (empty_storage wasm)
  store ← initialize_contract_version version governed
  ok (record { store = store; recorder = none; records = [] })

unfoldable pub set_recorder : Invocation → List Address → Address → Reputation → Result Reputation
set_recorder c signers recorder s = do
  assert_not_paused s.store
  assert_admin c signers s.store
  ok (record s { recorder = some recorder })

-- The outcome is added at full weight.
unfoldable pub add_outcome : ℕ → ReputationRecord → Result ReputationRecord
add_outcome outcome r =
    if outcome == outcome_repaid
    then (do
      repayments ← add_u32 r.repayments 1
      weight ← add_i128 r.weighted_repayments (pos 1)
      ok (record r { repayments = repayments; weighted_repayments = weight }))
    else (do
      defaults ← add_u32 r.defaults 1
      weight ← add_i128 r.weighted_defaults (pos 2)
      ok (record r { defaults = defaults; weighted_defaults = weight }))

abbrev same : ℤ → ℤ → Bool
same a b = leb_ℤ a b && leb_ℤ b a

-- `rep_chg` is published only if the score has changed.
abbrev publish_change : Address → ℤ → ℤ → Storage → Storage
publish_change originator old_score new_score store =
    if same new_score old_score
    then store
    else publish (word "rep_chg" ∷ address originator ∷ []) (amount new_score ∷ []) store

unfoldable pub record_outcome : Invocation → Address → ℕ → Reputation → Result Reputation
record_outcome c originator outcome s = do
  assert_not_paused s.store
  recorder ← unwrap s.recorder panicked
  require_auth c recorder
  guard (outcome == outcome_repaid || outcome == outcome_defaulted) (contract invalid_input)
  let found = get_or no_record originator s.records
  old_score ← score found
  updated ← add_outcome outcome (apply_pending_decay found c.now)
  new_score ← score updated
  let store' = publish (word "reputn" ∷ address originator ∷ []) (number outcome ∷ []) s.store
  ok (record s {
    records = set originator updated s.records;
    store = publish_change originator old_score new_score store';
  })

unfoldable pub neutralize : Bool → ReputationRecord → Result ReputationRecord
neutralize originator_favourable r =
    if originator_favourable && ltb 0 r.defaults
    then (do
      weight ← sub_i128 r.weighted_defaults (pos 2)
      ok (record r { defaults = r.defaults - 1; weighted_defaults = max_ℤ weight (pos 0) }))
    else ok r

-- Returns the corrected score.
unfoldable pub resolve_dispute :
    Invocation → List Address → Address → Bool → Reputation → Result (ℤ × Reputation)
resolve_dispute c signers originator originator_favourable s = do
  assert_not_paused s.store
  assert_admin c signers s.store
  let found = get_or no_record originator s.records
  old_score ← score found
  updated ← neutralize originator_favourable (apply_pending_decay found c.now)
  new_score ← score updated
  ok (
    new_score,
    record s {
      records = set originator updated s.records;
      store = publish_change originator old_score new_score s.store;
    },
  )

unfoldable pub get_record : Address → Reputation → ReputationRecord
get_record originator s = get_or no_record originator s.records

unfoldable pub get_score : Address → Reputation → Result ℤ
get_score originator s = score (get_or no_record originator s.records)
