-- ===== src/Reputation/Outcomes.antt =====
-- The laws of `record_outcome` and `get_score` of reputation/src/lib.rs.
use invofi_contracts.Prelude.{
  ℕ, zero, suc, ◌+◌, ◌-◌, ◌<◌, ◌≡◌, sym, refl, ◌∙◌, true, false, inl, inr, ◌⊎◌, some, Option-cases,
  Bool-cases, arith, ==_refl, ◌==◌, if◌then◌else◌,
}
use invofi_contracts.Prelude.Int.{ℤ, pos, ◌≤ℤ◌, ◌-ℤ◌, max_ℤ, -ℤ_parts}
use invofi_contracts.Prelude.Maps.{ℕ_key, get_or, set, ℕ_eq}
use invofi_contracts.Prelude.MapLaws.{get_or-set}
use invofi_contracts.Host.Outcome.{Address, Invocation, ok, Result-cases}
use invofi_contracts.Host.Machine.{sub_i128}
use invofi_contracts.Host.MachineLaws.{add_i128-either, add_u32-either}
use invofi_contracts.Common.Storage.{contract_is_paused, assert_not_paused}
use invofi_contracts.Reputation.{
  ReputationRecord, Reputation, no_record, halve, decay_loop, apply_pending_decay, score,
  add_outcome, record_outcome, get_record, get_score, decay_half_life_secs,
}
use invofi_contracts.Reputation.Records.{
  IsSound, max_parts, apply_pending_decay-IsSound, add_outcome-IsSound,
}

-- What a successful `record_outcome` has checked and done.
pub record Recorded (c : Invocation) (originator outcome : ℕ) (s s' : Reputation) : Type 0 where
  pub caller : Address
  pub configured : s.recorder ≡ some caller
  pub authorized : c.auth caller ≡ true
  pub running : contract_is_paused s.store ≡ false
  pub known : (outcome ≡ 0) ⊎ (outcome ≡ 1)
  pub updated : ReputationRecord
  pub credited :
      add_outcome outcome (apply_pending_decay (get_record originator s) c.now) ≡ ok updated
  pub written : s'.records ≡ set originator updated s.records

pub record_outcome-Recorded :
    (c : Invocation) (originator outcome : ℕ) (s : Reputation) {s' : Reputation}
    → record_outcome c originator outcome s ≡ ok s'
    → Recorded c originator outcome s s'
unfolding record_outcome get_record assert_not_paused
record_outcome-Recorded c originator outcome s h = elim (Option-cases s.recorder) [
  | inl unset ↦ absurd (ground arith)
  | inr (caller, e) ↦
      elim (Result-cases
        (add_outcome outcome (apply_pending_decay (get_or no_record originator s.records) c.now))) [
          | inr (x, bad) ↦ absurd (ground arith)
          | inl (updated, credited) ↦ record {
            caller = caller;
            configured = e;
            authorized = ground arith;
            running = ground arith;
            known = ground arith;
            updated = updated;
            credited = credited;
            written = ground arith;
          }
        ]
]

counts-decay_loop :
    (fuel elapsed : ℕ) (r : ReputationRecord)
    → ((decay_loop fuel elapsed r).repayments ≡ r.repayments)
      × ((decay_loop fuel elapsed r).defaults ≡ r.defaults)
unfolding decay_loop
counts-decay_loop zero elapsed r = (refl, refl)
counts-decay_loop (suc fuel) elapsed r =
    ground (arith, counts-decay_loop fuel (elapsed - decay_half_life_secs) (halve r))

pub counts-decay :
    (r : ReputationRecord) (now : ℕ)
    → ((apply_pending_decay r now).repayments ≡ r.repayments)
      × ((apply_pending_decay r now).defaults ≡ r.defaults)
      × ((apply_pending_decay r now).last_recompute ≡ now)
unfolding apply_pending_decay
counts-decay r now =
    ground (arith, counts-decay_loop (suc (now - r.last_recompute)) (now - r.last_recompute) r)

pub add_outcome_counts :
    (outcome : ℕ) (r : ReputationRecord) {r' : ReputationRecord}
    → (outcome ≡ 0) ⊎ (outcome ≡ 1)
    → add_outcome outcome r ≡ ok r'
    → (((outcome ≡ 0) × (r'.repayments ≡ r.repayments + 1) × (r'.defaults ≡ r.defaults))
        ⊎ ((outcome ≡ 1) × (r'.repayments ≡ r.repayments) × (r'.defaults ≡ r.defaults + 1)))
      × (r'.last_recompute ≡ r.last_recompute)
unfolding add_outcome
add_outcome_counts outcome r known h = ground (
  arith,
  add_u32-either r.repayments 1,
  add_u32-either r.defaults 1,
  add_i128-either r.weighted_repayments (pos 1),
  add_i128-either r.weighted_defaults (pos 2),
)

pub get_record-set :
    (s s' : Reputation) (a j : Address) (r : ReputationRecord)
    → s'.records ≡ set a r s.records
    → get_record j s' ≡ (if a == j then r else get_record j s)
unfolding get_record
get_record-set s s' a j r e = rw e (get_or-set no_record a j r s.records)

-- A successful `record_outcome` was made by the configured recorder, while not paused, with a known
-- outcome; it raises exactly one of the two counts by one, sets the originator's clock to the
-- ledger's time, and changes no other originator's record.
pub record_outcome_lem :
    (c : Invocation) (originator outcome : ℕ) (s : Reputation) {s' : Reputation}
    → record_outcome c originator outcome s ≡ ok s'
    → let before = get_record originator s in
      let after = get_record originator s' in
      ((caller : Address) × (s.recorder ≡ some caller) × (c.auth caller ≡ true))
      × (contract_is_paused s.store ≡ false)
      × (((outcome ≡ 0)
            × (after.repayments ≡ before.repayments + 1)
            × (after.defaults ≡ before.defaults))
          ⊎ ((outcome ≡ 1)
              × (after.repayments ≡ before.repayments)
              × (after.defaults ≡ before.defaults + 1)))
      × (after.last_recompute ≡ c.now)
      × ((j : Address) → (j ≡ originator) ⊎ (get_record j s' ≡ get_record j s))
record_outcome_lem c originator outcome s {s'} h =
    let r = record_outcome-Recorded c originator outcome s h in
    let here : get_record originator s' ≡ r.updated =
      get_record-set s s' originator originator r.updated r.written
      ∙ rw (==_refl originator) refl in
    let counted = add_outcome_counts outcome _ r.known r.credited in
    let kept = counts-decay (get_record originator s) c.now in
    (
      (r.caller, r.configured, r.authorized),
      r.running,
      rw here (ground arith),
      rw here (ground arith),
      λ j. elim (Bool-cases (originator == j)) [
        | inl same ↦ inl (sym (ℕ_eq originator j same))
        | inr other ↦ inr (get_record-set s s' originator j r.updated r.written ∙ rw other refl)
      ],
    )

-- Every record, stored or absent, is sound.
abbrev pub RecordsAreSound : Reputation → Type 0
RecordsAreSound s = (a : Address) → IsSound (get_record a s)

-- `record_outcome` keeps every record's weights between zero and its counts.
pub record_outcome-RecordsAreSound :
    (c : Invocation) (originator outcome : ℕ) (s : Reputation) {s' : Reputation}
    → RecordsAreSound s
    → record_outcome c originator outcome s ≡ ok s'
    → RecordsAreSound s'
record_outcome-RecordsAreSound c originator outcome s {s'} sound h j =
    let r = record_outcome-Recorded c originator outcome s h in
    let fresh : IsSound r.updated =
      add_outcome-IsSound outcome _ (apply_pending_decay-IsSound _ c.now (sound originator))
        r.credited in
    rw (get_record-set s s' originator j r.updated r.written) (elim (Bool-cases (originator == j)) [
      | inl same ↦ rw same fresh
      | inr other ↦ rw other (sound j)
    ])

-- The score of a sound record is computed without a trap, is not negative, and is at most the number
-- of repayments.
pub get_score_bounds :
    (a : Address) (s : Reputation)
    → IsSound (get_record a s)
    → (get_record a s).repayments < 4294967296
    → (get_record a s).defaults < 4294967296
    → (z : ℤ) × (get_score a s ≡ ok z) × (pos 0 ≤ℤ z) × (z ≤ℤ pos (get_record a s).repayments)
unfolding get_score get_record score sub_i128
get_score_bounds a s sound few_repayments few_defaults =
    let r = get_or no_record a s.records in
    let d = r.weighted_repayments -ℤ r.weighted_defaults in
    (
      max_ℤ d (pos 0),
      ground (arith, -ℤ_parts r.weighted_repayments r.weighted_defaults, sound),
      ground (arith, max_parts d),
      ground (arith, max_parts d, -ℤ_parts r.weighted_repayments r.weighted_defaults, sound),
    )
