-- ===== src/Reputation/Disputes.antt =====
-- The laws of `resolve_dispute` of reputation/src/lib.rs.
use invofi_contracts.Prelude.{
  ℕ, ◌≡◌, refl, ◌∙◌, true, false, Bool, List, Bool-cases, inl, inr, arith, ==_refl, ◌==◌,
}
use invofi_contracts.Prelude.Int.{ℤ, pos, ◌≤ℤ◌, ◌+ℤ◌, ◌-ℤ◌, max_ℤ, int_laws}
use invofi_contracts.Prelude.Maps.{ℕ_key, get_or, set}
use invofi_contracts.Host.Outcome.{Address, Invocation, ok, Result-cases}
use invofi_contracts.Host.MachineLaws.{add_i128-either, add_u32-either, sub_i128-either}
use invofi_contracts.Common.Storage.{contract_is_paused, assert_not_paused}
use invofi_contracts.Common.Governance.{assert_admin}
use invofi_contracts.Reputation.{
  ReputationRecord, Reputation, no_record, apply_pending_decay, score, add_outcome, neutralize,
  record_outcome, resolve_dispute, get_record, get_score,
}
use invofi_contracts.Reputation.Records.{IsSound, apply_pending_decay-IsSound, neutralize-IsSound}
use invofi_contracts.Reputation.Outcomes.{
  RecordsAreSound, record_outcome-Recorded, add_outcome_counts, get_record-set, counts-decay,
}

-- What a successful `resolve_dispute` has checked and done.
pub record Resolved (c : Invocation) (signers : List Address) (originator : Address)
    (favourable : Bool) (s : Reputation) (z : ℤ) (s' : Reputation) : Type 0 where
  pub approved : assert_admin c signers s.store ≡ ok tt
  pub running : contract_is_paused s.store ≡ false
  pub updated : ReputationRecord
  pub corrected :
      neutralize favourable (apply_pending_decay (get_record originator s) c.now) ≡ ok updated
  pub written : s'.records ≡ set originator updated s.records
  pub scored : score updated ≡ ok z

resolve_dispute-Resolved :
    (c : Invocation) (signers : List Address) (originator : Address) (favourable : Bool)
    (s : Reputation) {z : ℤ} {s' : Reputation}
    → resolve_dispute c signers originator favourable s ≡ ok (z, s')
    → Resolved c signers originator favourable s z s'
unfolding resolve_dispute get_record assert_not_paused
resolve_dispute-Resolved c signers originator favourable s h =
    elim (Result-cases
      (neutralize favourable (apply_pending_decay (get_or no_record originator s.records) c.now))) [
        | inr (x, bad) ↦ absurd (ground arith)
        | inl (updated, corrected) ↦ record {
          approved = ground arith;
          running = ground arith;
          updated = updated;
          corrected = corrected;
          written = ground arith;
          scored = ground arith;
        }
      ]

restored : (w : ℤ) → pos 0 ≤ℤ w → max_ℤ (w +ℤ pos 2 -ℤ pos 2) (pos 0) ≡ w
unfolding max_ℤ
restored w h = ground (arith, back w)
  where
    back : (x : ℤ) → x +ℤ pos 2 -ℤ pos 2 ≡ x
    back x = omega int_laws

undone :
    (r : ReputationRecord) {r' r'' : ReputationRecord}
    → IsSound r
    → add_outcome 1 r ≡ ok r'
    → neutralize true r' ≡ ok r''
    → r'' ≡ r
unfolding add_outcome neutralize
undone r {r'} {r''} sound h k = ground (
  arith,
  sound,
  add_u32-either r.defaults 1,
  add_i128-either r.weighted_defaults (pos 2),
  sub_i128-either (r.weighted_defaults +ℤ pos 2) (pos 2),
  restored r.weighted_defaults sound.defaults_nonneg,
)

-- `resolve_dispute` keeps every record's weights between zero and its counts.
pub resolve_dispute-RecordsAreSound :
    (c : Invocation) (signers : List Address) (originator : Address) (favourable : Bool)
    (s : Reputation) {z : ℤ} {s' : Reputation}
    → RecordsAreSound s
    → resolve_dispute c signers originator favourable s ≡ ok (z, s')
    → RecordsAreSound s'
resolve_dispute-RecordsAreSound c signers originator favourable s {z} {s'} sound h j =
    let r = resolve_dispute-Resolved c signers originator favourable s h in
    let fresh : IsSound r.updated =
      neutralize-IsSound favourable _ (apply_pending_decay-IsSound _ c.now (sound originator))
        r.corrected in
    rw (get_record-set s s' originator j r.updated r.written) (elim (Bool-cases (originator == j)) [
      | inl same ↦ rw same fresh
      | inr other ↦ rw other (sound j)
    ])

settled : (r : ReputationRecord) (now : ℕ) → r.last_recompute ≡ now → apply_pending_decay r now ≡ r
unfolding apply_pending_decay
settled r now e = ground arith

scored_record :
    (a : Address) (u : Reputation) (r : ReputationRecord) (z : ℤ)
    → get_record a u ≡ r
    → score r ≡ ok z
    → get_score a u ≡ ok z
unfolding get_score get_record
scored_record a u r z e h = rw e h

-- A default that is recorded, and overturned in the originator's favour at the same ledger time,
-- leaves the record exactly as the pending decay alone would have left it: the counts, both weights
-- and so the score are those of an originator who did not default.
pub dispute_undoes_default :
    (c d : Invocation) (signers : List Address) (a : Address) (s t : Reputation) {z : ℤ}
    {u : Reputation}
    → RecordsAreSound s
    → d.now ≡ c.now
    → record_outcome c a 1 s ≡ ok t
    → resolve_dispute d signers a true t ≡ ok (z, u)
    → (get_record a u ≡ apply_pending_decay (get_record a s) c.now) × (get_score a u ≡ ok z)
dispute_undoes_default c d signers a s t {z} {u} sound now h k =
    let r = record_outcome-Recorded c a 1 s h in
    let v = resolve_dispute-Resolved d signers a true t k in
    let r0 = apply_pending_decay (get_record a s) c.now in
    let there : get_record a t ≡ r.updated =
      get_record-set s t a a r.updated r.written ∙ rw (==_refl a) refl in
    let here : get_record a u ≡ v.updated =
      get_record-set t u a a v.updated v.written ∙ rw (==_refl a) refl in
    let stamped : r.updated.last_recompute ≡ d.now =
      ground
        (arith, add_outcome_counts 1 r0 r.known r.credited, counts-decay (get_record a s) c.now) in
    let unmoved : apply_pending_decay (get_record a t) d.now ≡ r.updated =
      rw there (settled r.updated d.now stamped) in
    let same : v.updated ≡ r0 =
      undone r0 (apply_pending_decay-IsSound _ c.now (sound a)) r.credited
        (rw unmoved at v.corrected) in
    (here ∙ same, scored_record a u v.updated z here v.scored)
