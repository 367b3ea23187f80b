-- ===== src/Financing/Negotiation.antt =====
-- Amendments and counter-offers of financing/src/lib.rs.
use invofi_contracts.Prelude.{
  ℕ, ◌+◌, ◌-◌, Bool, true, false, not, ◌&&◌, Option, none, some, List, [], ◌∷◌, ◌++◌, ltb, ◌==◌,
  if◌then◌else◌,
}
use invofi_contracts.Prelude.Lists.{length, is_empty}
use invofi_contracts.Prelude.Int.{ℤ, leb_ℤ}
use invofi_contracts.Prelude.Maps.{ℕ_key, get}
use invofi_contracts.Host.Outcome.{
  Address, Symbol, Result, ok, ◌>>=◌, ◌>>◌, contract, invalid_transition, invalid_input, guard,
  unwrap, panicked, Invocation,
}
use invofi_contracts.Host.Machine.{u64_bound}
use invofi_contracts.Common.Types.{InvoiceStatus, FinancingOffer, OfferStatus}
use invofi_contracts.Common.Domain.{
  NegotiationStatus, NegotiationParty, NegotiationRecord, default_negotiation_window_secs,
  max_negotiation_rounds,
}
use invofi_contracts.Common.Statuses.{is_invoice_status, is_offer_status}
use invofi_contracts.Common.Clients.{Token, RegistryClient}
use invofi_contracts.Financing.State.{
  Financing, get_offer, load_negotiation, save_negotiation, load_deadline, save_deadline,
  load_outcome,
}
use invofi_contracts.Financing.Offers.{assert_not_blacklisted}
use invofi_contracts.Financing.Acceptance.{assert_not_expired, settle_acceptance}

-- The terms under negotiation.
pub record Terms : Type 0 where
  pub amount : ℤ
  pub interest_rate : ℕ
  pub duration : ℕ

-- Exact equality of the amounts, the rates and the durations.
abbrev pub same_terms : Terms → Terms → Bool
same_terms a b =
    ((leb_ℤ a.amount b.amount && leb_ℤ b.amount a.amount) && a.interest_rate == b.interest_rate)
    && a.duration == b.duration

abbrev pub offer_terms : FinancingOffer → Terms
offer_terms offer = record {
  amount = offer.amount;
  interest_rate = offer.interest_rate;
  duration = offer.duration;
}

abbrev pub record_terms : NegotiationRecord → Terms
record_terms entry = record {
  amount = entry.amount;
  interest_rate = entry.interest_rate;
  duration = entry.duration;
}

abbrev pub same_party : NegotiationParty → NegotiationParty → Bool
same_party NegotiationParty.lender NegotiationParty.lender = true
same_party NegotiationParty.originator NegotiationParty.originator = true
same_party _ _ = false

-- The loop over the history, from the latest proposal found so far.
unfoldable pub last_proposal_from :
    NegotiationParty → Option NegotiationRecord → List NegotiationRecord → Option NegotiationRecord
last_proposal_from party latest [] = latest
last_proposal_from party latest (entry ∷ rest) =
    last_proposal_from party (if same_party entry.party party then some entry else latest) rest

unfoldable pub last_proposal_by :
    List NegotiationRecord → NegotiationParty → Option NegotiationRecord
unfolding last_proposal_from
last_proposal_by history party = last_proposal_from party none history

unfoldable pub get_negotiation_window : Financing → ℕ
get_negotiation_window s = elim s.negwin [
  | none ↦ default_negotiation_window_secs
  | some window ↦ window
]

abbrev pub is_pending_offer : Option FinancingOffer → Bool
is_pending_offer none = false
is_pending_offer (some offer) = is_offer_status offer.status OfferStatus.pending

-- The status without a persisted outcome.
abbrev pub open_status : Invocation → Symbol → Financing → NegotiationStatus
open_status c offer_id s =
    if is_empty (load_negotiation offer_id s)
    then NegotiationStatus.none
    else if not (is_pending_offer (get offer_id s.offers))
    then NegotiationStatus.closed
    else if ltb (load_deadline offer_id s) c.now
    then NegotiationStatus.expired
    else NegotiationStatus.opened

unfoldable pub get_negotiation_status : Invocation → Symbol → Financing → NegotiationStatus
get_negotiation_status c offer_id s = elim (load_outcome offer_id s) [
  | some outcome ↦ outcome
  | none ↦ open_status c offer_id s
]

abbrev pub is_negotiable : NegotiationStatus → Bool
is_negotiable NegotiationStatus.none = true
is_negotiable NegotiationStatus.opened = true
is_negotiable _ = false

-- Returns the history that the caller's round will be appended to.
unfoldable pub assert_negotiable :
    Invocation → Symbol → FinancingOffer → ℕ → Financing → Result (List NegotiationRecord)
unfolding get_negotiation_status
assert_negotiable c offer_id offer expected_round s = do
  guard (is_offer_status offer.status OfferStatus.pending) (contract invalid_transition)
  guard (is_negotiable (get_negotiation_status c offer_id s)) (contract invalid_transition)
  let history = load_negotiation offer_id s
  guard (length history == expected_round) (contract invalid_input)
  guard (ltb (length history) max_negotiation_rounds) (contract invalid_transition)
  ok history

-- `now.saturating_add(window)`
abbrev pub deadline_after : ℕ → ℕ → ℕ
deadline_after now window = if ltb (now + window) u64_bound then now + window else u64_bound - 1

unfoldable pub record_round :
    Invocation → Symbol → List NegotiationRecord → NegotiationParty → Terms → Financing → Financing
unfolding get_negotiation_window
record_round c offer_id history party terms s =
    let opened =
      if is_empty history
      then save_deadline offer_id (deadline_after c.now (get_negotiation_window s)) s
      else s in
    let entry : NegotiationRecord = record {
      party = party;
      amount = terms.amount;
      interest_rate = terms.interest_rate;
      duration = terms.duration;
      timestamp = c.now;
    } in
    save_negotiation offer_id (history ++ entry ∷ []) opened

module _ {W : Type 0} (token : Token W) (registry : RegistryClient W) where
  unfoldable pub execute_agreement :
      Invocation → Symbol → Address → Financing → W → Result (FinancingOffer × Financing × W)
  execute_agreement c offer_id closer s w = do
    offer ← get_offer offer_id s
    registry_addr ← unwrap s.registry panicked
    invoice ← registry.get_invoice registry_addr offer.invoice_id w
    guard (is_invoice_status invoice.status InvoiceStatus.pending) (contract invalid_transition)
    assert_not_expired c offer
    assert_not_blacklisted registry offer.lender s w
    assert_not_blacklisted registry invoice.originator s w
    settle_acceptance token registry c offer_id offer registry_addr invoice closer s w
