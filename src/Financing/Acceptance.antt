-- ===== src/Financing/Acceptance.antt =====
-- The settlement of an accepted offer, `accept_offer` and `reject_offer` of financing/src/lib.rs.
use invofi_contracts.Prelude.{not, ◌&&◌, ◌||◌, none, some, [], ◌∷◌, ltb, ◌==◌, if◌then◌else◌}
use invofi_contracts.Prelude.Lists.{is_empty}
use invofi_contracts.Prelude.Maps.{ℕ_key}
use invofi_contracts.Host.Outcome.{
  Address, Symbol, Result, ok, Done, ◌>>=◌, ◌>>◌, contract, unauthorized, invalid_transition,
  offer_expired, guard, unwrap, panicked, Invocation, require_auth,
}
use invofi_contracts.Host.Machine.{add_i128}
use invofi_contracts.Host.Events.{word, symbol, address, amount}
use invofi_contracts.Common.Types.{Invoice, InvoiceStatus, FinancingOffer, OfferStatus}
use invofi_contracts.Common.Domain.{NegotiationStatus}
use invofi_contracts.Common.Statuses.{is_invoice_status, is_offer_status}
use invofi_contracts.Common.Storage.{publish, assert_not_paused, resolve_token}
use invofi_contracts.Common.Clients.{Token, RegistryClient}
use invofi_contracts.Financing.State.{
  Financing, get_offer, put_offer, load_lender_stats, save_lender_stats, load_negotiation,
  load_outcome, save_outcome,
}
use invofi_contracts.Financing.Offers.{
  publish_close, is_some, close_negotiation_on_offer_exit, load_invoice,
}

-- A negotiation that was still running ends as accepted.
unfoldable pub end_negotiation : Symbol → Address → Financing → Financing
end_negotiation offer_id closer s =
    if not (is_empty (load_negotiation offer_id s)) && not (is_some (load_outcome offer_id s))
    then publish_close offer_id NegotiationStatus.accepted closer
        (save_outcome offer_id NegotiationStatus.accepted s)
    else s

-- The sums that an acceptance moves.
unfoldable pub count_acceptance : FinancingOffer → Financing → Result Financing
count_acceptance offer s = do
  total_financed ← add_i128 s.stats.total_financed offer.amount
  let stats = load_lender_stats offer.lender s
  total_accepted ← add_i128 stats.total_accepted offer.amount
  let lstats = record stats { total_accepted = total_accepted }
  ok (
      save_lender_stats offer.lender lstats
        (record s { stats = record (s.stats) { total_financed = total_financed } }))

module _ {W : Type 0} (token : Token W) where
  -- The position token, if one is configured.
  unfoldable pub mint_position : FinancingOffer → Financing → W → Result (Financing × W)
  mint_position offer s w = elim s.postok [
    | none ↦ ok (s, w)
    | some pos_token ↦ (do
      w' ← token.mint pos_token offer.lender offer.amount w
      ok (
        record s {
          store =
              publish (word "pos_mint" ∷ symbol offer.id ∷ [])
                (address offer.lender ∷ amount offer.amount ∷ []) s.store;
        },
        w',
      ))
  ]

-- An offer whose deadline has passed; a deadline of zero never passes.
unfoldable pub assert_not_expired : Invocation → FinancingOffer → Done
assert_not_expired c offer =
    guard (offer.expires_at == 0 || ltb c.now offer.expires_at) (contract offer_expired)

module _ {W : Type 0} (token : Token W) (registry : RegistryClient W) where
  unfoldable pub settle_acceptance :
      Invocation
      → Symbol
      → FinancingOffer
      → Address
      → Invoice
      → Address
      → Financing
      → W
      → Result (FinancingOffer × Financing × W)
  settle_acceptance c offer_id offer registry_addr invoice closer s w = do
    let accepted = record offer { status = OfferStatus.accepted; funded_at = c.now }
    let s₁ = put_offer offer_id accepted (end_negotiation offer_id closer s)
    token_addr ← resolve_token offer.currency s₁.store
    w₁ ← token.transfer_from token_addr c.self offer.lender invoice.originator offer.amount w
    (_, w₂) ← registry.financing_marks_invoice_financed registry_addr offer.invoice_id w₁
    (s₂, w₃) ← mint_position token accepted s₁ w₂
    s₃ ← count_acceptance accepted s₂
    ok (
      accepted,
      record s₃ {
        store =
            publish (word "off_acc" ∷ symbol offer.id ∷ [])
              (symbol offer.invoice_id ∷ address offer.lender ∷ amount offer.amount ∷ []) s₃.store;
      },
      w₃,
    )

  unfoldable pub accept_offer :
      Invocation → Symbol → Address → Financing → W → Result (FinancingOffer × Financing × W)
  accept_offer c offer_id invoice_originator s w = do
    assert_not_paused s.store
    require_auth c invoice_originator
    offer ← get_offer offer_id s
    guard (is_offer_status offer.status OfferStatus.pending) (contract invalid_transition)
    assert_not_expired c offer
    registry_addr ← unwrap s.registry panicked
    invoice ← registry.get_invoice registry_addr offer.invoice_id w
    guard (invoice.originator == invoice_originator) (contract unauthorized)
    guard (is_invoice_status invoice.status InvoiceStatus.pending) (contract invalid_transition)
    settle_acceptance c offer_id offer registry_addr invoice invoice_originator s w

module _ {W : Type 0} (registry : RegistryClient W) where
  unfoldable pub reject_offer :
      Invocation → Symbol → Address → Financing → W → Result (FinancingOffer × Financing)
  reject_offer c offer_id invoice_originator s w = do
    assert_not_paused s.store
    require_auth c invoice_originator
    offer ← get_offer offer_id s
    guard (is_offer_status offer.status OfferStatus.pending) (contract invalid_transition)
    invoice ← load_invoice registry offer.invoice_id s w
    guard (invoice.originator == invoice_originator) (contract unauthorized)
    let rejected = record offer { status = OfferStatus.rejected }
    let s' =
        close_negotiation_on_offer_exit offer_id invoice_originator (put_offer offer_id rejected s)
    ok (
      rejected,
      record s' {
        store =
            publish (word "off_rej" ∷ symbol offer.id ∷ []) (symbol offer.invoice_id ∷ []) s'.store;
      },
    )
