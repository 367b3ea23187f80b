-- ===== src/Reputation/Records.antt =====
-- The invariant of a record of reputation/src/lib.rs, and the parts of the operations under it.
use invofi_contracts.Prelude.{ℕ, zero, suc, ◌-◌, ◌*◌, ◌≡◌, inl, inr, Bool, Bool-cases, arith, leb}
use invofi_contracts.Prelude.Int.{
  ℤ, pos, pos_part, neg_part, quot, max_ℤ, ◌≤ℤ◌, ◌-ℤ◌, +ℤ_parts, -ℤ_parts,
}
use invofi_contracts.Prelude.Maps.{ℕ_key}
use invofi_contracts.Host.Outcome.{ok}
use invofi_contracts.Host.MachineLaws.{add_i128-either, sub_i128-either, add_u32-either}
use invofi_contracts.Reputation.{
  ReputationRecord, halve, decay_loop, apply_pending_decay, add_outcome, neutralize,
}

pub record IsSound (r : ReputationRecord) : Type 0 where
  pub repayments_nonneg : pos 0 ≤ℤ r.weighted_repayments
  pub repayments_bounded : r.weighted_repayments ≤ℤ pos r.repayments
  pub defaults_nonneg : pos 0 ≤ℤ r.weighted_defaults
  pub defaults_bounded : r.weighted_defaults ≤ℤ pos (2 * r.defaults)

quot_half :
    (z : ℤ) (n : ℕ)
    → pos 0 ≤ℤ z
    → z ≤ℤ pos n
    → (pos 0 ≤ℤ quot z (pos 2)) × (quot z (pos 2) ≤ℤ pos n)
unfolding quot
quot_half z n h k = ground arith

halve-IsSound : (r : ReputationRecord) → IsSound r → IsSound (halve r)
unfolding halve
halve-IsSound r s =
    let w = quot_half r.weighted_repayments r.repayments s.repayments_nonneg s.repayments_bounded in
    let d = quot_half r.weighted_defaults (2 * r.defaults) s.defaults_nonneg s.defaults_bounded in
    record {
      repayments_nonneg = w.0;
      repayments_bounded = w.1;
      defaults_nonneg = d.0;
      defaults_bounded = d.1;
    }

decay_loop-IsSound :
    (fuel elapsed : ℕ) (r : ReputationRecord) → IsSound r → IsSound (decay_loop fuel elapsed r)
unfolding decay_loop
decay_loop-IsSound zero elapsed r s = s
decay_loop-IsSound (suc fuel) elapsed r s = elim (Bool-cases (leb 7776000 elapsed)) [
  | inl more ↦ rw more (decay_loop-IsSound fuel (elapsed - 7776000) (halve r) (halve-IsSound r s))
  | inr done ↦ rw done s
]

pub apply_pending_decay-IsSound :
    (r : ReputationRecord) (now : ℕ) → IsSound r → IsSound (apply_pending_decay r now)
unfolding apply_pending_decay
apply_pending_decay-IsSound r now s =
    ground (arith, decay_loop-IsSound (suc (now - r.last_recompute)) (now - r.last_recompute) r s)

pub add_outcome-IsSound :
    (outcome : ℕ) (r : ReputationRecord) {r' : ReputationRecord}
    → IsSound r
    → add_outcome outcome r ≡ ok r'
    → IsSound r'
unfolding add_outcome
add_outcome-IsSound outcome r s h = ground (
  arith,
  add_u32-either r.repayments 1,
  add_u32-either r.defaults 1,
  add_i128-either r.weighted_repayments (pos 1),
  add_i128-either r.weighted_defaults (pos 2),
  +ℤ_parts r.weighted_repayments (pos 1),
  +ℤ_parts r.weighted_defaults (pos 2),
)

pub max_parts :
    (z : ℤ)
    → (neg_part (max_ℤ z (pos 0)) ≡ 0) × (pos_part (max_ℤ z (pos 0)) ≡ pos_part z - neg_part z)
unfolding max_ℤ
max_parts z = ground arith

pub neutralize-IsSound :
    (favourable : Bool) (r : ReputationRecord) {r' : ReputationRecord}
    → IsSound r
    → neutralize favourable r ≡ ok r'
    → IsSound r'
unfolding neutralize
neutralize-IsSound favourable r s h = ground (
  arith,
  sub_i128-either r.weighted_defaults (pos 2),
  -ℤ_parts r.weighted_defaults (pos 2),
  max_parts (r.weighted_defaults -ℤ pos 2),
)
