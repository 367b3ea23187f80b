-- ===== src/Reputation/History.antt =====
-- The entry points of reputation/src/lib.rs that change state as one dispatcher, and its histories.
use invofi_contracts.Prelude.{ℕ, ◌≡◌, Bool, List, [], ◌∷◌, arith, inl, inr}
use invofi_contracts.Prelude.Maps.{ℕ_key}
use invofi_contracts.Host.Outcome.{
  Address, Hash, Result, ok, err, ◌>>=◌, Invocation, Result-cases, >>=-eq-ok,
}
use invofi_contracts.Common.Types.{Text}
use invofi_contracts.Common.Governance.{init_admin_config}
use invofi_contracts.Common.Version.{parse_semantic_version}
use invofi_contracts.Common.Upgrade.{initialize_contract_version}
use invofi_contracts.Common.Contract.Calls.{AdminCall, administer}
use invofi_contracts.Reputation.{Reputation, no_record, constructor, get_record}
use invofi_contracts.Reputation as Contract
use invofi_contracts.Reputation.Records.{IsSound}
use invofi_contracts.Reputation.Outcomes.{RecordsAreSound, record_outcome-RecordsAreSound}
use invofi_contracts.Reputation.Disputes.{resolve_dispute-RecordsAreSound}

pub data ReputationCall : Type 0 where
  set_recorder : List Address → Address → ReputationCall
  record_outcome : Address → ℕ → ReputationCall
  resolve_dispute : List Address → Address → Bool → ReputationCall
  administer_contract : List Address → AdminCall → ReputationCall

unfoldable pub perform : Invocation → ReputationCall → Reputation → Result Reputation
perform c (ReputationCall.set_recorder signers who) s = Contract.set_recorder c signers who s
perform c (ReputationCall.record_outcome who outcome) s = Contract.record_outcome c who outcome s
perform c (ReputationCall.resolve_dispute signers who favourable) s =
    Contract.resolve_dispute c signers who favourable s >>= λ x. ok x.1
perform c (ReputationCall.administer_contract signers call) s =
    administer c signers call s.store >>= λ store. ok (record s { store = store })

-- A transaction that traps is undone.
abbrev after : Result Reputation → Reputation → Reputation
after (ok next) before = next
after (err _) before = before

unfoldable pub run : List (Invocation × ReputationCall) → Reputation → Reputation
run [] s = s
run ((c, call) ∷ rest) s = run rest (after (perform c call s) s)

same_records : (s s' : Reputation) → s'.records ≡ s.records → RecordsAreSound s → RecordsAreSound s'
unfolding get_record
same_records s s' same sound j = rw same (sound j)

perform-RecordsAreSound :
    (c : Invocation) (call : ReputationCall) (s : Reputation) {s' : Reputation}
    → RecordsAreSound s
    → perform c call s ≡ ok s'
    → RecordsAreSound s'
unfolding perform
perform-RecordsAreSound c (ReputationCall.set_recorder signers who) s {s'} i h =
    same_records s s' (unfold Contract.set_recorder in ground arith) i
perform-RecordsAreSound c (ReputationCall.record_outcome who outcome) s i h =
    record_outcome-RecordsAreSound c who outcome s i h
perform-RecordsAreSound c (ReputationCall.resolve_dispute signers who favourable) s {s'} i h =
    let ((z, t), e, done) = >>=-eq-ok (Contract.resolve_dispute c signers who favourable s) _ h in
    let same : s'.records ≡ t.records = cc in
    same_records t s' same (resolve_dispute-RecordsAreSound c signers who favourable s i e)
perform-RecordsAreSound c (ReputationCall.administer_contract signers call) s {s'} i h =
    let (store, e, done) = >>=-eq-ok (administer c signers call s.store) _ h in
    let same : s'.records ≡ s.records = ground arith in same_records s s' same i

after-RecordsAreSound :
    (c : Invocation) (call : ReputationCall) (s : Reputation)
    → RecordsAreSound s
    → RecordsAreSound (after (perform c call s) s)
after-RecordsAreSound c call s i = elim (Result-cases (perform c call s)) [
  | inr (e, trapped) ↦ rw trapped i
  | inl (next, done) ↦ rw done (perform-RecordsAreSound c call s i done)
]

run-RecordsAreSound :
    (calls : List (Invocation × ReputationCall)) (s : Reputation)
    → RecordsAreSound s
    → RecordsAreSound (run calls s)
unfolding run
run-RecordsAreSound [] s i = i
run-RecordsAreSound ((c, call) ∷ rest) s i =
    run-RecordsAreSound rest _ (after-RecordsAreSound c call s i)

constructor-records :
    (wasm : Hash) (admin : Address) (version : Text) {s : Reputation}
    → constructor wasm admin version ≡ ok s
    → s.records ≡ []
unfolding constructor init_admin_config initialize_contract_version
constructor-records wasm admin version h = elim (Result-cases (parse_semantic_version version)) [
  | inr (e, bad) ↦ absurd (ground arith)
  | inl (v, parsed) ↦ ground arith
]

no_record-IsSound : IsSound no_record
no_record-IsSound = record {
  repayments_nonneg = omega arith;
  repayments_bounded = omega arith;
  defaults_nonneg = omega arith;
  defaults_bounded = omega arith;
}

-- From the deployment on, whatever entry points are called, in whatever order and by whomever, with
-- the calls that trap undone, the weights of every originator's record lie between zero and what its
-- counts stand for.
pub run-RecordsAreSound_from_constructor :
    (wasm : Hash) (admin : Address) (version : Text) {s : Reputation}
    (calls : List (Invocation × ReputationCall))
    → constructor wasm admin version ≡ ok s
    → RecordsAreSound (run calls s)
unfolding get_record
run-RecordsAreSound_from_constructor wasm admin version {s} calls h =
    run-RecordsAreSound calls s
      (λ j. rw (constructor-records wasm admin version h) no_record-IsSound)
