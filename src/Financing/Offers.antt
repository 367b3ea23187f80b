-- ===== src/Financing/Offers.antt =====
-- The guards of financing/src/lib.rs, and the creation and withdrawal of offers.
use invofi_contracts.Prelude.{
  ℕ, Bool, true, false, not, ◌&&◌, ◌||◌, Option, none, some, [], ◌∷◌, ltb, leb, ◌==◌, if◌then◌else◌,
}
use invofi_contracts.Prelude.Lists.{is_empty}
use invofi_contracts.Prelude.Int.{ℤ, pos, leb_ℤ, ltb_ℤ}
use invofi_contracts.Prelude.Maps.{ℕ_key, contains_key}
use invofi_contracts.Host.Outcome.{
  Address, Symbol, Result, ok, Done, ◌>>=◌, ◌>>◌, contract, unauthorized, invalid_transition,
  invalid_input, already_exists, blacklisted, panicked, guard, unwrap, Invocation, require_auth,
}
use invofi_contracts.Host.Machine.{add_i128, add_u32}
use invofi_contracts.Host.Events.{word, symbol, address, amount, number}
use invofi_contracts.Common.Types.{Invoice, InvoiceStatus, FinancingOffer, OfferStatus}
use invofi_contracts.Common.Domain.{
  min_offer_duration_secs, max_offer_duration_secs, max_interest_bps, NegotiationStatus,
}
use invofi_contracts.Common.Statuses.{is_invoice_status, is_offer_status}
use invofi_contracts.Common.Storage.{publish, assert_not_paused}
use invofi_contracts.Common.Clients.{RegistryClient}
use invofi_contracts.Financing.State.{
  Financing, get_offer, put_offer, load_lender_stats, save_lender_stats, load_negotiation,
  load_outcome,
}

unfoldable pub assert_terms_valid : ℤ → ℕ → ℕ → Done
assert_terms_valid amt interest_rate duration =
    let rate_ok = leb 1 interest_rate && leb interest_rate max_interest_bps in
    let duration_ok =
      leb min_offer_duration_secs duration && leb duration max_offer_duration_secs in
    guard (not ((leb_ℤ amt (pos 0) || not rate_ok) || not duration_ok)) (contract invalid_input)

-- The discriminants of `NegotiationStatus`, as the events carry them.
abbrev pub negotiation_status_code : NegotiationStatus → ℕ
negotiation_status_code NegotiationStatus.none = 0
negotiation_status_code NegotiationStatus.opened = 1
negotiation_status_code NegotiationStatus.expired = 2
negotiation_status_code NegotiationStatus.closed = 3
negotiation_status_code NegotiationStatus.accepted = 4

abbrev pub publish_close : Symbol → NegotiationStatus → Address → Financing → Financing
publish_close offer_id outcome closer s = record s {
  store =
      publish (word "neg_clsd" ∷ symbol offer_id ∷ [])
        (number (negotiation_status_code outcome) ∷ address closer ∷ []) s.store;
}

abbrev pub is_some {ℓ} : {A : Type ℓ} → Option A → Bool
is_some none = false
is_some (some _) = true

unfoldable pub close_negotiation_on_offer_exit : Symbol → Address → Financing → Financing
close_negotiation_on_offer_exit offer_id closer s =
    if is_empty (load_negotiation offer_id s) || is_some (load_outcome offer_id s)
    then s
    else publish_close offer_id NegotiationStatus.closed closer s

module _ {W : Type 0} (registry : RegistryClient W) where
  unfoldable pub assert_not_blacklisted : Address → Financing → W → Done
  assert_not_blacklisted who s w = do
    registry_addr ← unwrap s.registry panicked
    listed ← registry.is_blacklisted registry_addr who w
    guard (not listed) (contract blacklisted)

  -- The invoice that an offer is on, as the registry has it.
  unfoldable pub load_invoice : Symbol → Financing → W → Result Invoice
  load_invoice invoice_id s w = do
    registry_addr ← unwrap s.registry panicked
    registry.get_invoice registry_addr invoice_id w

-- The assertions on the terms of a new offer.
unfoldable pub assert_offer_terms : ℤ → ℕ → ℕ → Done
assert_offer_terms amt interest_rate duration = do
  guard (ltb_ℤ (pos 0) amt) panicked
  guard (ltb 0 interest_rate) panicked
  guard (leb interest_rate max_interest_bps) panicked
  guard (leb min_offer_duration_secs duration) panicked
  guard (leb duration max_offer_duration_secs) panicked

-- The assertions on the invoice of a new offer.
unfoldable pub assert_offerable : Address → ℤ → Invoice → Done
assert_offerable lender amt invoice = do
  guard (is_invoice_status invoice.status InvoiceStatus.pending) panicked
  guard (not (lender == invoice.originator)) panicked
  guard (leb_ℤ amt invoice.amount) panicked

-- The counts and sums of a new offer.
unfoldable pub count_offer : FinancingOffer → Financing → Result Financing
count_offer offer s = do
  total_offers ← add_u32 s.stats.total_offers 1
  let stats = load_lender_stats offer.lender s
  total_offered ← add_i128 stats.total_offered offer.amount
  offers_pending ← add_u32 stats.offers_pending 1
  let lstats = record stats { total_offered = total_offered; offers_pending = offers_pending }
  ok (
      save_lender_stats offer.lender lstats
        (record s { stats = record (s.stats) { total_offers = total_offers } }))

module _ {W : Type 0} (registry : RegistryClient W) where
  unfoldable pub create_offer :
      Invocation
      → Symbol
      → Symbol
      → Address
      → ℤ
      → Symbol
      → ℕ
      → ℕ
      → ℕ
      → Financing
      → W
      → Result (FinancingOffer × Financing)
  create_offer c offer_id invoice_id lender amt currency interest_rate duration expires_at s w = do
    assert_not_paused s.store
    require_auth c lender
    assert_not_blacklisted registry lender s w
    assert_offer_terms amt interest_rate duration
    invoice ← load_invoice registry invoice_id s w
    assert_offerable lender amt invoice
    guard (not (contains_key offer_id s.offers)) (contract already_exists)
    let offer : FinancingOffer = record {
      id = offer_id;
      invoice_id = invoice_id;
      lender = lender;
      amount = amt;
      currency = currency;
      interest_rate = interest_rate;
      duration = duration;
      expires_at = expires_at;
      status = OfferStatus.pending;
      funded_at = 0;
      amount_repaid = pos 0;
    }
    s' ← count_offer offer (put_offer offer_id offer s)
    ok (
      offer,
      record s' {
        store =
            publish (word "off_new" ∷ symbol offer_id ∷ [])
              (symbol invoice_id ∷ address lender ∷ amount amt ∷ number interest_rate ∷ [])
              s'.store;
      },
    )

unfoldable pub withdraw_offer :
    Invocation → Symbol → Address → Financing → Result (FinancingOffer × Financing)
unfolding close_negotiation_on_offer_exit
withdraw_offer c offer_id lender s = do
  assert_not_paused s.store
  require_auth c lender
  offer ← get_offer offer_id s
  guard (offer.lender == lender) (contract unauthorized)
  guard (is_offer_status offer.status OfferStatus.pending) (contract invalid_transition)
  let withdrawn = record offer { status = OfferStatus.rejected }
  let s' = close_negotiation_on_offer_exit offer_id lender (put_offer offer_id withdrawn s)
  ok (
    withdrawn,
    record s' {
      store = publish (word "off_wdr" ∷ symbol offer.id ∷ []) (address offer.lender ∷ []) s'.store;
    },
  )
