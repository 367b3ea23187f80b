-- ===== src/Reputation/Tests.antt =====
-- A concrete reputation contract, and the theorems on it.
use invofi_contracts.Prelude.{
  ◌*◌, ℕ, List, ◌+◌, ◌<◌, ◌/◌, ◌^◌, ◌≡◌, refl, ◌⊎◌, inl, inr, true, false, some, [], ◌∷◌, arith,
  Bool-cases, ◌==◌,
}
use invofi_contracts.Prelude.Int.{ℤ, pos, ◌+ℤ◌, ◌-ℤ◌, max_ℤ, ◌≤ℤ◌}
use invofi_contracts.Prelude.Maps.{ℕ_key, set}
use invofi_contracts.Host.Outcome.{Address, ok, Invocation}
use invofi_contracts.Host.Machine.{add_i128, sub_i128, add_u32}
use invofi_contracts.Host.Events.{word, address, amount, number}
use invofi_contracts.Common.Storage.{
  Storage, empty_storage, assert_not_paused, publish, contract_is_paused,
}
use invofi_contracts.Common.Governance.{
  load_admin_config, is_signer, count_signers, assert_threshold, assert_admin,
}
use invofi_contracts.Reputation.{
  ReputationRecord, Reputation, outcome_defaulted, decay_loop, apply_pending_decay, score,
  add_outcome, record_outcome, neutralize, resolve_dispute, get_record, get_score,
  decay_half_life_secs,
}
use invofi_contracts.Reputation.Decay.{weighted, apply_pending_decay-closed}
use invofi_contracts.Reputation.Outcomes.{RecordsAreSound, record_outcome_lem, get_score_bounds}
use invofi_contracts.Reputation.Frequency.{record_each, IsDense, times, record_each-undecayed}
use invofi_contracts.Reputation.Disputes.{dispute_undoes_default}

abbrev pub call : Invocation
call = record { self = 99; now = 5000; auth = λ who. true }

abbrev pub later : Invocation
later = record call { now = 6000 }

abbrev storage : Storage
storage = record (empty_storage 7) { admcfg = some (record { signers = 8 ∷ []; threshold = 1 }) }

abbrev one_repayment : ReputationRecord
one_repayment = record {
  repayments = 3;
  defaults = 0;
  weighted_repayments = pos 3;
  weighted_defaults = pos 0;
  last_recompute = 4000;
}

abbrev book : Reputation
book = record { store = storage; recorder = some 60; records = (1, one_repayment) ∷ [] }

-- Originator 1 defaults.
abbrev defaulted : Reputation
defaulted = record book {
  records =
      (1, record one_repayment { defaults = 1; weighted_defaults = pos 2; last_recompute = 5000 })
      ∷ [];
  store =
      publish (word "rep_chg" ∷ address 1 ∷ []) (amount (pos 1) ∷ [])
        (publish (word "reputn" ∷ address 1 ∷ []) (number 1 ∷ []) storage);
}

record_default : record_outcome call 1 1 book ≡ ok defaulted
unfolding record_outcome add_outcome apply_pending_decay decay_loop score assert_not_paused add_i128
    sub_i128 add_u32 ◌+ℤ◌ ◌-ℤ◌ max_ℤ set
record_default = refl

book-RecordsAreSound : RecordsAreSound book
unfolding get_record
book-RecordsAreSound a = elim (Bool-cases (1 == a)) [
  | inl same ↦ rw same (record {
    repayments_nonneg = omega arith;
    repayments_bounded = omega arith;
    defaults_nonneg = omega arith;
    defaults_bounded = omega arith;
  })
  | inr other ↦ rw other (record {
    repayments_nonneg = omega arith;
    repayments_bounded = omega arith;
    defaults_nonneg = omega arith;
    defaults_bounded = omega arith;
  })
]

record_outcome_lem_example :
    ((caller : Address) × (book.recorder ≡ some caller) × (call.auth caller ≡ true))
    × (contract_is_paused storage ≡ false)
    × (((outcome_defaulted ≡ 0)
          × ((get_record 1 defaulted).repayments ≡ (get_record 1 book).repayments + 1)
          × ((get_record 1 defaulted).defaults ≡ (get_record 1 book).defaults))
        ⊎ ((outcome_defaulted ≡ 1)
            × ((get_record 1 defaulted).repayments ≡ (get_record 1 book).repayments)
            × ((get_record 1 defaulted).defaults ≡ (get_record 1 book).defaults + 1)))
    × ((get_record 1 defaulted).last_recompute ≡ 5000)
    × ((j : Address) → (j ≡ 1) ⊎ (get_record j defaulted ≡ get_record j book))
record_outcome_lem_example = record_outcome_lem call 1 1 book record_default

few : (get_record 1 book).repayments < 4294967296
unfolding get_record
few = omega arith

few_defaults : (get_record 1 book).defaults < 4294967296
unfolding get_record
few_defaults = omega arith

get_score_bounds_example :
    (z : ℤ) × (get_score 1 book ≡ ok z) × (pos 0 ≤ℤ z) × (z ≤ℤ pos (get_record 1 book).repayments)
get_score_bounds_example = get_score_bounds 1 book (book-RecordsAreSound 1) few few_defaults

-- Two half-lives and a day later.
apply_pending_decay-closed_example :
    apply_pending_decay (weighted one_repayment 100 7) 15642400
    ≡ record (weighted one_repayment
        (100 / 2 ^ (15638400 / decay_half_life_secs))
        (7 / 2 ^ (15638400 / decay_half_life_secs))) { last_recompute = 15642400 }
apply_pending_decay-closed_example =
    apply_pending_decay-closed one_repayment 100 7 15642400 (omega arith) (omega arith)

-- The default is overturned within the same second.
abbrev corrected : Reputation
corrected = record defaulted {
  records = (1, record one_repayment { last_recompute = 5000 }) ∷ [];
  store = publish (word "rep_chg" ∷ address 1 ∷ []) (amount (pos 3) ∷ []) defaulted.store;
}

resolve_default : resolve_dispute call (8 ∷ []) 1 true defaulted ≡ ok (pos 3, corrected)
unfolding resolve_dispute neutralize apply_pending_decay decay_loop score assert_not_paused
    assert_admin load_admin_config assert_threshold count_signers is_signer sub_i128 ◌-ℤ◌ max_ℤ set
resolve_default = refl

dispute_undoes_default_example :
    (get_record 1 corrected ≡ apply_pending_decay (get_record 1 book) 5000)
    × (get_score 1 corrected ≡ ok (pos 3))
dispute_undoes_default_example =
    dispute_undoes_default call call (8 ∷ []) 1 book defaulted book-RecordsAreSound refl
      record_default resolve_default

-- A default, and a repayment a thousand seconds later.
abbrev mixed_run : List (Invocation × ℕ)
mixed_run = (call, 1) ∷ (later, 0) ∷ []

abbrev mixed : Reputation
mixed = record book {
  records =
      (
        1,
        record one_repayment {
          repayments = 4;
          defaults = 1;
          weighted_repayments = pos 4;
          weighted_defaults = pos 2;
          last_recompute = 6000;
        },
      )
      ∷ [];
  store = publish (word "rep_chg" ∷ address 1 ∷ []) (amount (pos 2) ∷ []) (
      publish (word "reputn" ∷ address 1 ∷ []) (number 0 ∷ []) (
        publish (word "rep_chg" ∷ address 1 ∷ []) (amount (pos 1) ∷ [])
          (publish (word "reputn" ∷ address 1 ∷ []) (number 1 ∷ []) storage)));
}

record_mixed : record_each mixed_run 1 book ≡ ok mixed
unfolding record_each record_outcome add_outcome apply_pending_decay decay_loop score
    assert_not_paused add_i128 sub_i128 add_u32 ◌+ℤ◌ ◌-ℤ◌ max_ℤ set
record_mixed = refl

dense : IsDense (get_record 1 book).last_recompute mixed_run
unfolding get_record
dense = (omega arith, omega arith, (omega arith, omega arith, tt))

record_each-undecayed_example :
    ((get_record 1 mixed).weighted_repayments
      ≡ (get_record 1 book).weighted_repayments +ℤ pos (times 0 mixed_run))
    × ((get_record 1 mixed).weighted_defaults
        ≡ (get_record 1 book).weighted_defaults +ℤ pos (2 * times 1 mixed_run))
record_each-undecayed_example = record_each-undecayed mixed_run 1 book dense record_mixed

-- Two defaults, decayed to a weight of one each; one of them is overturned.
over_corrected :
    neutralize true
      (record one_repayment { defaults = 2; weighted_defaults = pos 2; last_recompute = 5000 })
    ≡ ok (record one_repayment { defaults = 1; weighted_defaults = pos 0; last_recompute = 5000 })
unfolding neutralize sub_i128 ◌-ℤ◌ max_ℤ
over_corrected = refl
