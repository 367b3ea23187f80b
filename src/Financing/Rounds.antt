-- ===== src/Financing/Rounds.antt =====
-- `amend_offer`, `counter_offer` and `close_negotiation` of financing/src/lib.rs.
use invofi_contracts.Prelude.{ℕ, Bool, false, not, none, some, List, [], ◌∷◌, ◌==◌, if◌then◌else◌}
use invofi_contracts.Prelude.Maps.{ℕ_key}
use invofi_contracts.Host.Outcome.{
  Address, Symbol, Result, ok, err, Done, ◌>>=◌, ◌>>◌, contract, unauthorized, invalid_transition,
  not_found, guard, Invocation, require_auth,
}
use invofi_contracts.Host.Machine.{add_i128, sub_i128}
use invofi_contracts.Host.Events.{word, symbol, address, amount, number}
use invofi_contracts.Common.Types.{FinancingOffer}
use invofi_contracts.Common.Domain.{NegotiationStatus, NegotiationParty, NegotiationRecord}
use invofi_contracts.Common.Storage.{publish, assert_not_paused}
use invofi_contracts.Common.Clients.{Token, RegistryClient}
use Prim.Native.String.{String}
use invofi_contracts.Financing.State.{
  Financing, get_offer, put_offer, load_lender_stats, save_lender_stats, load_outcome, save_outcome,
}
use invofi_contracts.Financing.Offers.{
  publish_close, is_some, assert_terms_valid, assert_not_blacklisted, load_invoice,
}
use invofi_contracts.Financing.Negotiation.{
  Terms, same_terms, offer_terms, record_terms, last_proposal_by, get_negotiation_status,
  assert_negotiable, record_round, execute_agreement,
}

-- The originator's live proposal has exactly these terms.
unfoldable pub meets_counter : List NegotiationRecord → Terms → Bool
meets_counter history terms = elim (last_proposal_by history NegotiationParty.originator) [
  | none ↦ false
  | some counter ↦ same_terms (record_terms counter) terms
]

-- The lender's total moves by the difference, and the terms are written onto the offer.
unfoldable pub write_terms :
    Symbol → FinancingOffer → Terms → Financing → Result (FinancingOffer × Financing)
write_terms offer_id offer terms s = do
  delta ← sub_i128 terms.amount offer.amount
  let stats = load_lender_stats offer.lender s
  total_offered ← add_i128 stats.total_offered delta
  let amended = record offer {
    amount = terms.amount;
    interest_rate = terms.interest_rate;
    duration = terms.duration;
  }
  ok (
    amended,
    put_offer offer_id amended
        (save_lender_stats offer.lender (record stats { total_offered = total_offered }) s),
  )

abbrev pub publish_round : String → Symbol → Address → Terms → Financing → Financing
publish_round name offer_id who terms s = record s {
  store =
      publish (word name ∷ symbol offer_id ∷ [])
        (address who
          ∷ amount terms.amount
          ∷ number terms.interest_rate
          ∷ number terms.duration
          ∷ [])
        s.store;
}

module _ {W : Type 0} (token : Token W) (registry : RegistryClient W) where
  unfoldable pub amend_offer :
      Invocation
      → Symbol
      → Address
      → ℕ
      → Terms
      → Financing
      → W
      → Result (FinancingOffer × Financing × W)
  amend_offer c offer_id lender expected_round terms s w = do
    assert_not_paused s.store
    require_auth c lender
    assert_not_blacklisted registry lender s w
    assert_terms_valid terms.amount terms.interest_rate terms.duration
    offer ← get_offer offer_id s
    guard (offer.lender == lender) (contract unauthorized)
    history ← assert_negotiable c offer_id offer expected_round s
    (amended, s₁) ← write_terms offer_id offer terms s
    let s₂ = record_round c offer_id history NegotiationParty.lender terms s₁
    let s₃ = publish_round "off_amd" offer_id lender terms s₂
    if meets_counter history terms
        then execute_agreement token registry c offer_id lender s₃ w
        else ok (amended, s₃, w)

  unfoldable pub counter_offer :
      Invocation
      → Symbol
      → Address
      → ℕ
      → Terms
      → Financing
      → W
      → Result (FinancingOffer × Financing × W)
  counter_offer c offer_id originator expected_round terms s w = do
    assert_not_paused s.store
    require_auth c originator
    assert_not_blacklisted registry originator s w
    assert_terms_valid terms.amount terms.interest_rate terms.duration
    offer ← get_offer offer_id s
    invoice ← load_invoice registry offer.invoice_id s w
    guard (invoice.originator == originator) (contract unauthorized)
    history ← assert_negotiable c offer_id offer expected_round s
    let s₁ = record_round c offer_id history NegotiationParty.originator terms s
    let s₂ = publish_round "ctr_off" offer_id originator terms s₁
    if same_terms terms (offer_terms offer)
        then execute_agreement token registry c offer_id originator s₂ w
        else ok (offer, s₂, w)

module _ {W : Type 0} (registry : RegistryClient W) where
  -- Before the deadline only the lender or the originator may close.
  unfoldable pub assert_party : Symbol → Address → Financing → W → Done
  assert_party offer_id caller s w = do
    offer ← get_offer offer_id s
    if caller == offer.lender then ok tt else (do
      invoice ← load_invoice registry offer.invoice_id s w
      guard (caller == invoice.originator) (contract unauthorized))

  -- The outcome that a close persists.
  unfoldable pub closing_outcome :
      NegotiationStatus → Symbol → Address → Financing → W → Result NegotiationStatus
  closing_outcome NegotiationStatus.none offer_id caller s w = err (contract not_found)
  closing_outcome NegotiationStatus.closed offer_id caller s w = err (contract invalid_transition)
  closing_outcome NegotiationStatus.accepted offer_id caller s w = err (contract invalid_transition)
  closing_outcome NegotiationStatus.expired offer_id caller s w = ok NegotiationStatus.expired
  closing_outcome NegotiationStatus.opened offer_id caller s w = do
    assert_party offer_id caller s w
    ok NegotiationStatus.closed

  unfoldable pub close_negotiation :
      Invocation → Symbol → Address → Financing → W → Result (NegotiationStatus × Financing)
  close_negotiation c offer_id caller s w = do
    assert_not_paused s.store
    require_auth c caller
    guard (not (is_some (load_outcome offer_id s))) (contract invalid_transition)
    outcome ← closing_outcome (get_negotiation_status c offer_id s) offer_id caller s w
    ok (outcome, publish_close offer_id outcome caller (save_outcome offer_id outcome s))
